-- ===== src/Client/Uploader/Chunks.antt =====
-- One chunk over a network that may lose requests and answers, retries included, and the question
-- for the offset.
use resumable_upload.Prelude.{
  ℕ, zero, suc, ◌+◌, ◌≡◌, refl, ◌∙◌, inl, inr, String, not, ◌&&◌, Bool, false, Option, none, some,
  Bytes, length, take, arith, Bool-cases, Option-cases, eqb, ltb,
}
use resumable_upload.Prelude.Dict.{Dict}
use resumable_upload.Client.Outcome.{
  Failure, communication, upload_failed, offset_mismatch, os_error, value_error, Outcome, done,
  raised, Exec, status_code,
}
use resumable_upload.Client.Network.{Reply, response, http_error, url_error, Network}
use resumable_upload.Client.Contract.{IsTusServer}
use resumable_upload.Client.Protocol.{is_retriable_status, retry_delay}
use resumable_upload.Client.Uploader.{
  Config, Session, with_request_id, moved_offset, chunk_headers, patch_request, head_headers,
  head_request, send, draw_id, has_request_id, head_reply, get_offset, chunk_reply,
  upload_chunk_once, update_stats,
}
use resumable_upload.Client.Uploader.Sends.{
  IsChunk, Held, Sent, patch-Exchanged, Told, head-Exchanged,
}
use resumable_upload.Client.Uploader.Transport.{send-Replied}
use resumable_upload.Client.Uploader.Upload.{
  count_failed, give_up, wait_then, decided, attempted, attempts, once, upload_one,
}

module _ (N : Network) (c : Config) (held : N.State → Bytes) (T : IsTusServer N c held)
    (direct : c.via_proxy ≡ false) where
  pub draw_id-keeps :
      (headers : Dict String) (s : Session N.State)
      → ((draw_id N c headers s).1.offset ≡ s.offset)
        × (held (draw_id N c headers s).1.net ≡ held s.net)
  unfolding draw_id
  draw_id-keeps headers s = elim (Bool-cases (c.add_request_id && not (has_request_id headers))) [
    | inl draws ↦ rw draws (refl, T.uuid4 s.net)
    | inr plain ↦ rw plain (refl, refl)
  ]

  -- The offset that HEAD reports is the number of bytes that are held, and nothing changes.
  abbrev pub Reported : ℕ → Bytes → Outcome ℕ × Session N.State → Type 0
  Reported offset now (done n, s) = (n ≡ length now) × (s.offset ≡ offset) × (held s.net ≡ now)
  Reported offset now (raised e, s) = (s.offset ≡ offset) × (held s.net ≡ now)

  head_reply-Reported :
      (offset : ℕ) (now : Bytes) (p : Reply × Session N.State)
      → (p.1.offset ≡ offset) × Told now p.0 (held p.1.net)
      → Reported offset now (head_reply N c p)
  head_reply-Reported offset now (response status headers, s)
        (at_offset, (same, (t, there, parsed))) =
      rw (there, parsed) (refl, at_offset, same)
  head_reply-Reported offset now (http_error code, s) (at_offset, same) = (at_offset, same)
  head_reply-Reported offset now (url_error, s) (at_offset, same) = (at_offset, same)

  pub get_offset-Reported :
      (s : Session N.State) → Reported s.offset (held s.net) (get_offset N c s)
  unfolding get_offset
  get_offset-Reported s =
      let drawn = draw_id N c (head_headers c) s in
      let (same_offset, same) = draw_id-keeps (head_headers c) s in
      let req = head_request c (with_request_id drawn.0 (head_headers c)) in
      head_reply-Reported s.offset (held s.net) (send N c req drawn.1) (
        send-Replied (λ b. b ≡ held s.net) (λ b. b ≡ held s.net) (Told (held s.net)) N c held
          s.offset req (λ h e. e) (λ h e. e)
          (λ kept net before.
            head-Exchanged (held s.net) (N.exchange kept req net).0 (held net)
              (held (N.exchange kept req net).1) before (T.head kept drawn.0 net))
          drawn.1 direct same_offset same)

  module _ (offset : ℕ) (chunk : Bytes) (fits : IsChunk c.file offset chunk) where
    -- Where the chunk returns or meets a 409, the server holds the file up to the chunk's end; else
    -- it may also hold it up to the chunk only.
    abbrev pub After : Outcome Unit × Session N.State → Type 0
    After (done _, s) =
        (s.offset ≡ offset + length chunk) × (held s.net ≡ take (offset + length chunk) c.file)
    After (raised offset_mismatch, s) =
        (s.offset ≡ offset) × (held s.net ≡ take (offset + length chunk) c.file)
    After (raised (communication _), s) =
        (s.offset ≡ offset) × Held c.file offset chunk (held s.net)
    After (raised (upload_failed _), s) =
        (s.offset ≡ offset) × Held c.file offset chunk (held s.net)
    After (raised os_error, s) = (s.offset ≡ offset) × Held c.file offset chunk (held s.net)
    After (raised value_error, s) = (s.offset ≡ offset) × Held c.file offset chunk (held s.net)

    -- Before an attempt.
    abbrev Before : Session N.State → Type 0
    Before s = (s.offset ≡ offset) × Held c.file offset chunk (held s.net)

    chunk_reply-After :
        (p : Reply × Session N.State)
        → (p.1.offset ≡ offset) × Sent c.file offset chunk fits p.0 (held p.1.net)
        → After (chunk_reply N c (length chunk) p)
    chunk_reply-After (response status headers, s) (at_offset, (h, moved)) =
        let told : moved_offset s.offset (length chunk) headers ≡ some (offset + length chunk) =
          rw at_offset moved in
        rw told (refl, h)
    chunk_reply-After (http_error code, s) (at_offset, (h, conflict)) =
        elim (Bool-cases (eqb code 409)) [
          | inl is_conflict ↦ rw is_conflict (at_offset, conflict (ground arith))
          | inr other ↦ rw other (at_offset, h)
        ]
    chunk_reply-After (url_error, s) (at_offset, h) = (at_offset, h)

    upload_chunk_once-After :
        (s : Session N.State) → Before s → After (upload_chunk_once N c chunk s)
    unfolding upload_chunk_once
    upload_chunk_once-After s (at_offset, h) =
        elim (Option-cases (chunk_headers c s.length_deferred s.offset chunk)) [
          | inl unknown ↦ rw unknown (at_offset, h)
          | inr (headers, made) ↦
              let drawn = draw_id N c headers s in
              let (same_offset, same) = draw_id-keeps headers s in
              let req = patch_request c (with_request_id drawn.0 headers) chunk in
              rw made (
                chunk_reply-After (send N c req drawn.1) (
                  send-Replied (Held c.file offset chunk) (Held c.file offset chunk)
                    (Sent c.file offset chunk fits) N c held offset req (λ b e. e) (λ b e. e)
                    (λ kept net before.
                      patch-Exchanged c.file offset chunk fits (N.exchange kept req net).0
                        (held net) (held (N.exchange kept req net).1) before
                        (T.patch kept s.length_deferred offset chunk headers drawn.0 net
                          (rw (← at_offset) made)))
                    drawn.1 direct (same_offset ∙ at_offset) (rw same h)))
        ]

    -- What follows an attempt keeps what the attempts promise.
    abbrev Continues : (Session N.State → Outcome Unit × Session N.State) → Type 0
    Continues next = (s : Session N.State) → Before s → After (next s)

    decided-After :
        (attempt : ℕ) (next : Exec (Session N.State) Unit) (e : Failure)
        (policy : Option (Failure → ℕ → Bool)) (s : Session N.State)
        → Continues next
        → Before s
        → After (raised e, count_failed N c s)
        → After (decided N c attempt next e policy s)
    decided-After attempt next e none s fine before fails =
        elim (Bool-cases (is_retriable_status (status_code e))) [
          | inl again ↦ rw again (fine s before)
          | inr stop ↦ rw stop fails
        ]
    decided-After attempt next e (some ask) s fine before fails =
        elim (Bool-cases (ask e (attempt + 1))) [
          | inl again ↦ rw again (fine s before)
          | inr stop ↦ rw stop before
        ]

    attempted-After :
        (attempt : ℕ) (next : Exec (Session N.State) Unit) (p : Outcome Unit × Session N.State)
        → Continues next
        → After p
        → After (attempted N c attempt next p)
    unfolding update_stats
    attempted-After zero next (done _, s) fine h = h
    attempted-After (suc n) next (done _, s) fine h = h
    attempted-After attempt next (raised (upload_failed code), s) fine h =
        decided-After attempt next (upload_failed code) c.on_should_retry s fine h h
    attempted-After attempt next (raised os_error, s) fine h =
        decided-After attempt next os_error c.on_should_retry s fine h h
    attempted-After attempt next (raised (communication code), s) fine h = h
    attempted-After attempt next (raised offset_mismatch, s) fine h = h
    attempted-After attempt next (raised value_error, s) fine h = h

    wait_then-After :
        (attempt : ℕ) (next : Exec (Session N.State) Unit)
        → Continues next
        → Continues (wait_then N c attempt next)
    wait_then-After attempt next fine s (at_offset, h) =
        let time = retry_delay c.retry_delay attempt in
        let same = T.wait time s.net in
        elim (Bool-cases (N.wait time s.net).0) [
          | inl stopped ↦ rw stopped (at_offset, rw same h)
          | inr on ↦ rw on (fine (record s { net = (N.wait time s.net).1 }) (at_offset, rw same h))
        ]

    attempts-After : (remaining attempt : ℕ) → Continues (attempts N c remaining attempt chunk)
    unfolding attempts
    attempts-After zero attempt s before =
        attempted-After attempt (give_up N c) (upload_chunk_once N c chunk s) (λ s' h. h)
          (upload_chunk_once-After s before)
    attempts-After (suc remaining) attempt s before =
        attempted-After attempt (wait_then N c attempt (attempts N c remaining (suc attempt) chunk))
          (upload_chunk_once N c chunk s)
          (wait_then-After attempt (attempts N c remaining (suc attempt) chunk)
            (attempts-After remaining (suc attempt)))
          (upload_chunk_once-After s before)

    once-After : (p : Outcome Unit × Session N.State) → After p → After (once N c p)
    unfolding update_stats
    once-After (done _, s) h = h
    once-After (raised (communication _), s) h = h
    once-After (raised (upload_failed _), s) h = h
    once-After (raised offset_mismatch, s) h = h
    once-After (raised os_error, s) h = h
    once-After (raised value_error, s) h = h

    pub upload_one-After : Continues (upload_one N c chunk)
    unfolding upload_one
    upload_one-After s before = elim (Bool-cases (ltb 0 c.max_retries)) [
      | inl retries ↦ rw retries (attempts-After c.max_retries 0 s before)
      | inr alone ↦
          rw alone (once-After (upload_chunk_once N c chunk s) (upload_chunk_once-After s before))
    ]
