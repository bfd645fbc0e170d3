-- ===== src/Client/Uploader/Upload.antt =====
-- resumable_upload/client/uploader.py: the retries of a chunk, and the loop over the file.
use resumable_upload.Prelude.{
  ℕ, zero, suc, ◌+◌, ◌-◌, min, String, Bool, false, ◌&&◌, Option, none, some, [], if◌then◌else◌,
  ltb, leb, Bytes, take, drop, is_empty,
}
use resumable_upload.Client.Outcome.{
  Failure, communication, upload_failed, offset_mismatch, os_error, value_error, Outcome, done,
  raised, Exec, pure, status_code, ◌>>=◌, ◌>>◌,
}
use resumable_upload.Client.Network.{Network}
use resumable_upload.Client.Protocol.{is_retriable_status, retry_delay}
use resumable_upload.Client.Uploader.{Config, Session, get_offset, upload_chunk_once, update_stats}

module _ (N : Network) (c : Config) where
  abbrev pub count_failed : Session N.State → Session N.State
  count_failed s = record s { stats = record s.stats { chunks_failed = s.stats.chunks_failed + 1 } }

  abbrev pub count_retried : ℕ → Session N.State → Session N.State
  count_retried zero s = s
  count_retried (suc _) s = record s {
    stats = record s.stats { chunks_retried = s.stats.chunks_retried + 1 };
  }

  -- All attempts have failed.
  abbrev pub give_up : Exec (Session N.State) Unit
  give_up s = (raised (upload_failed none), count_failed s)

  -- The wait before the next attempt, unless the stop event is set.
  abbrev pub wait_then : ℕ → Exec (Session N.State) Unit → Exec (Session N.State) Unit
  wait_then attempt next s =
      let (stopped, net) = N.wait (retry_delay c.retry_delay attempt) s.net in
      let s' = record s { net = net } in
      if stopped then (raised (upload_failed none), s') else next s'

  -- Whether the failed attempt is repeated, as `on_should_retry` or the default policy says.
  abbrev pub decided :
      ℕ
      → Exec (Session N.State) Unit
      → Failure
      → Option (Failure → ℕ → Bool)
      → Exec (Session N.State) Unit
  decided attempt next e (some ask) s = if ask e (attempt + 1) then next s else give_up s
  decided attempt next e none s =
      if is_retriable_status (status_code e) then next s else (raised e, count_failed s)

  abbrev pub retried : ℕ → Exec (Session N.State) Unit → Failure → Exec (Session N.State) Unit
  retried attempt next e s = decided attempt next e c.on_should_retry s

  -- The `except` clauses of an attempt; `next` is what follows where it is to be repeated.
  abbrev pub attempted :
      ℕ
      → Exec (Session N.State) Unit
      → Outcome Unit × Session N.State
      → Outcome Unit × Session N.State
  attempted attempt next (done _, s) = (done tt, update_stats N c (count_retried attempt s))
  attempted attempt next (raised (upload_failed code), s) =
      retried attempt next (upload_failed code) s
  attempted attempt next (raised os_error, s) = retried attempt next os_error s
  attempted attempt next (raised (communication code), s) = (raised (communication code), s)
  attempted attempt next (raised offset_mismatch, s) = (raised offset_mismatch, s)
  attempted attempt next (raised value_error, s) = (raised value_error, s)

  -- The loop of `_upload_chunk_with_retry`, with `remaining` attempts behind this one.
  unfoldable pub attempts : ℕ → ℕ → Bytes → Exec (Session N.State) Unit
  unfolding is_retriable_status retry_delay
  attempts zero attempt chunk s = attempted attempt give_up (upload_chunk_once N c chunk s)
  attempts (suc remaining) attempt chunk s =
      attempted attempt (wait_then attempt (attempts remaining (suc attempt) chunk))
        (upload_chunk_once N c chunk s)

  abbrev pub once : Outcome Unit × Session N.State → Outcome Unit × Session N.State
  once (done _, s) = (done tt, update_stats N c s)
  once (raised e, s) = (raised e, s)

  -- _upload_chunk
  unfoldable pub upload_one : Bytes → Exec (Session N.State) Unit
  unfolding attempts upload_chunk_once update_stats
  upload_one chunk s =
      if ltb 0 c.max_retries
      then attempts c.max_retries 0 chunk s
      else once (upload_chunk_once N c chunk s)

  abbrev pub resynced : Outcome ℕ × Session N.State → Outcome Unit × Session N.State
  resynced (done n, s) = (done tt, update_stats N c (record s { offset = n }))
  resynced (raised e, s) = (raised e, s)

  -- The `except _OffsetMismatch` around a chunk.
  abbrev pub or_resync : Outcome Unit × Session N.State → Outcome Unit × Session N.State
  or_resync (raised offset_mismatch, s) = resynced (get_offset N c s)
  or_resync (raised (communication code), s) = (raised (communication code), s)
  or_resync (raised (upload_failed code), s) = (raised (upload_failed code), s)
  or_resync (raised os_error, s) = (raised os_error, s)
  or_resync (raised value_error, s) = (raised value_error, s)
  or_resync (done _, s) = (done tt, s)

  -- seek and read
  abbrev pub read_chunk : ℕ → ℕ → Bytes
  read_chunk max_offset offset = take (min c.chunk_size (max_offset - offset)) (drop offset c.file)

  -- One chunk below `max_offset`, and the new offset from the server where it has another.
  unfoldable pub upload_next : ℕ → Exec (Session N.State) Unit
  unfolding upload_one get_offset update_stats
  upload_next max_offset s =
      let chunk = read_chunk max_offset s.offset in
      if is_empty chunk then (raised os_error, s) else or_resync (upload_one chunk s)

  -- upload_chunk: whether more chunks remain
  unfoldable pub upload_chunk : Exec (Session N.State) Bool
  unfolding upload_next
  upload_chunk s =
      if leb c.file_size s.offset
      then (done false, s)
      else (upload_next c.file_size >>= λ _ s'. (done (ltb s'.offset c.file_size), s')) s

  -- An empty PATCH commits the length of a deferred upload that no chunk has committed.
  unfoldable pub commit_length : Exec (Session N.State) String
  unfolding upload_one
  commit_length s =
      if s.length_deferred && leb c.file_size s.offset
      then (upload_one [] >> pure c.url) s
      else (done c.url, s)

  abbrev pub stop_offset : Option ℕ → ℕ
  stop_offset none = c.file_size
  stop_offset (some n) = min n c.file_size

  abbrev pub then_url : Outcome String × Session N.State → Outcome (Option String) × Session N.State
  then_url (done url, s) = (done (some url), s)
  then_url (raised e, s) = (raised e, s)

  -- The loop of `upload` and what follows it; each round spends one unit of fuel, and `none` means
  -- that the fuel ran out.
  unfoldable pub upload_from : ℕ → ℕ → Exec (Session N.State) (Option String)
  unfolding upload_next commit_length
  upload_from zero max_offset s = (done none, s)
  upload_from (suc fuel) max_offset s =
      let rest = (upload_next max_offset >>= λ _. upload_from fuel max_offset) s in
      if ltb s.offset max_offset then rest else then_url (commit_length s)

  unfoldable pub upload : ℕ → Option ℕ → Exec (Session N.State) (Option String)
  unfolding upload_from
  upload fuel stop_at s = upload_from fuel (stop_offset stop_at) s
