-- ===== src/Client/Uploader.antt =====
-- resumable_upload/client/uploader.py: the uploader, one request at a time. Hooks are pure: what
-- `before_request` makes of the headers is a value, and `after_response` and the progress callback,
-- which only look, are left out. A negative Upload-Offset is refused where it is read; the code
-- would fail at the seek that follows.
pub mod Upload
pub mod Transport
pub mod Sends
pub mod Chunks
pub mod Uploads
pub mod Delivers
pub mod Returns
pub mod Completes
use resumable_upload.Prelude.{
  ℕ, ◌+◌, String, ◌<>◌, ◌==◌, Bool, true, false, not, ◌&&◌, ◌||◌, Option, none, some, List, [], ◌∷◌,
  if◌then◌else◌, ltb, leb, eqb, Bytes, length, ℤ, pos, negsuc, int, str, lower,
}
use resumable_upload.Prelude.Dict
use resumable_upload.Prelude.Dict.{Dict}
use resumable_upload.Client.Outcome.{
  Failure, communication, upload_failed, offset_mismatch, value_error, Outcome, done, raised, Exec,
  pure, throw, ◌>>=◌, ◌>>◌,
}
use resumable_upload.Client.Network.{
  Request, Wire, answered, stale, broken, Reply, response, http_error, url_error, Network,
}
use resumable_upload.Client.Protocol.{Checksum, resolve_checksum_algorithm}
use resumable_upload.Client.Stats.{UploadStats, new_stats, after_chunk}

-- The attributes of `Uploader` that do not change; `file` is what its handle reads. `digest` is the
-- base64 of hashlib's digest, `none` for an unknown algorithm. Times are in microseconds.
pub record Config : Type 0 where
  pub url : String
  pub file : Bytes
  pub file_size : ℕ
  pub chunk_size : ℕ
  pub checksum : Checksum
  pub digest : String → Bytes → Option String
  pub headers : Dict String
  pub max_retries : ℕ
  pub retry_delay : ℕ
  pub via_proxy : Bool
  pub override_patch_method : Bool
  pub add_request_id : Bool
  pub before_request : Option (String → String → Dict String → Dict String)
  pub on_should_retry : Option (Failure → ℕ → Bool)

-- The attributes that change, and the network; `connected` tells whether `_conn` is there.
pub record Session (Net : Type 0) : Type 0 where
  pub offset : ℕ
  pub length_deferred : Bool
  pub stats : UploadStats
  pub connected : Bool
  pub net : Net

abbrev pub is_success : ℕ → Bool
is_success status = leb 200 status && ltb status 300

abbrev pub natural : Option ℤ → Option ℕ
natural none = none
natural (some (pos n)) = some n
natural (some (negsuc _)) = none

abbrev pub is_one : Option String → Bool
is_one none = false
is_one (some t) = t == "1"

abbrev pub has_request_id : Dict String → Bool
has_request_id [] = false
has_request_id ((k, _) ∷ d) = lower k == "x-request-id" || has_request_id d

-- The header that maybe_add_request_id adds, with the id that was drawn.
abbrev pub with_request_id : Option String → Dict String → Dict String
with_request_id none headers = headers
with_request_id (some id) headers = Dict.put headers "X-Request-ID" id

abbrev pub hooked :
    Option (String → String → Dict String → Dict String)
    → String
    → String
    → Dict String
    → Dict String
hooked none method url headers = headers
hooked (some hook) method url headers = hook method url headers

-- The offset after a chunk of `size` bytes, from the response's header; `none` is a ValueError.
abbrev offset_told : ℕ → ℕ → Option String → Option ℕ
offset_told offset size none = some (offset + size)
offset_told offset size (some t) = if t == "" then some (offset + size) else natural (int t)

unfoldable pub moved_offset : ℕ → ℕ → Dict String → Option ℕ
moved_offset offset size headers = offset_told offset size (Dict.get headers "Upload-Offset")

module _ (c : Config) where
  abbrev with_length : Bool → Dict String → Dict String
  with_length deferred headers =
      if deferred then Dict.put headers "Upload-Length" (str c.file_size) else headers

  abbrev add_digest : String → Dict String → Option String → Option (Dict String)
  add_digest algo headers none = none
  add_digest algo headers (some d) = some (Dict.put headers "Upload-Checksum" (algo <> " " <> d))

  abbrev with_checksum : Bytes → Dict String → Option String → Option (Dict String)
  with_checksum chunk headers none = some headers
  with_checksum chunk headers (some algo) = add_digest algo headers (c.digest algo chunk)

  -- The headers of a PATCH before the request id; `none` is the ValueError of hashlib.
  unfoldable pub chunk_headers : Bool → ℕ → Bytes → Option (Dict String)
  unfolding resolve_checksum_algorithm
  chunk_headers deferred offset chunk =
      let fixed : Dict String =
        ("Tus-Resumable", "1.0.0")
        ∷ ("Upload-Offset", str offset)
        ∷ ("Content-Type", "application/offset+octet-stream")
        ∷ ("Content-Length", str (length chunk))
        ∷ [] in
      with_checksum chunk (with_length deferred (Dict.merge fixed c.headers))
        (resolve_checksum_algorithm c.checksum)

  unfoldable pub patch_request : Dict String → Bytes → Request
  patch_request headers chunk =
      let method : String = if c.override_patch_method then "POST" else "PATCH" in
      let tunnelled : Dict String =
        if c.override_patch_method
        then Dict.put headers "X-HTTP-Method-Override" "PATCH"
        else headers in
      record {
        method = method;
        url = c.url;
        headers = hooked c.before_request method c.url tunnelled;
        body = some chunk;
      }

  abbrev pub head_headers : Dict String
  head_headers = Dict.merge (("Tus-Resumable", "1.0.0") ∷ []) c.headers

  unfoldable pub head_request : Dict String → Request
  head_request headers = record {
    method = "HEAD";
    url = c.url;
    headers = hooked c.before_request "HEAD" c.url headers;
    body = none;
  }

module _ (N : Network) (c : Config) where
  -- _drop_conn, for a connection that is there
  abbrev drop_conn : Session N.State → Session N.State
  drop_conn s = record s { connected = false }

  -- The outcome of `_roundtrip`, a HTTPError or the response, or the kind of another exception.
  abbrev pub received : Wire → Session N.State → Option Reply × Session N.State
  received (answered status headers will_close) s = (
    some (if is_success status then response status headers else http_error status),
    (if will_close then drop_conn s else s),
  )
  received stale s = (none, s)
  received broken s = (some url_error, drop_conn s)

  -- _roundtrip; `none` is one of _STALE_SOCKET_ERRORS.
  unfoldable pub roundtrip : Request → Session N.State → Option Reply × Session N.State
  roundtrip req s =
      let (wire, net) = N.exchange s.connected req s.net in
      received wire (record s { connected = true; net = net })

  abbrev pub last_try : Option Reply × Session N.State → Reply × Session N.State
  last_try (none, s) = (url_error, drop_conn s)
  last_try (some r, s) = (r, s)

  abbrev pub first_try : Bool → Request → Option Reply × Session N.State → Reply × Session N.State
  first_try reused req (none, s) =
      if reused then last_try (roundtrip req (drop_conn s)) else (url_error, drop_conn s)
  first_try reused req (some r, s) = (r, s)

  abbrev through_proxy : Request → Session N.State → Reply × Session N.State
  through_proxy req s = let (reply, net) = N.urlopen req s.net in (reply, record s { net = net })

  -- _send
  unfoldable pub send : Request → Session N.State → Reply × Session N.State
  unfolding roundtrip
  send req s =
      if c.via_proxy then through_proxy req s else first_try s.connected req (roundtrip req s)

  -- The id that maybe_add_request_id draws.
  unfoldable pub draw_id : Dict String → Session N.State → Option String × Session N.State
  draw_id headers s =
      if c.add_request_id && not (has_request_id headers)
      then (let (id, net) = N.uuid4 s.net in (some id, record s { net = net }))
      else (none, s)

  abbrev pub offset_read : Option ℕ → Exec (Session N.State) ℕ
  offset_read none s = (raised value_error, s)
  offset_read (some n) s = (done n, s)

  -- The flag is stored before the offset is read.
  abbrev pub offset_reported : Dict String → Option String → Exec (Session N.State) ℕ
  offset_reported headers none s = (raised (communication none), s)
  offset_reported headers (some t) s =
      let deferred = is_one (Dict.get headers "Upload-Defer-Length") in
      offset_read (natural (int t)) (record s { length_deferred = deferred })

  abbrev pub head_reply : Reply × Session N.State → Outcome ℕ × Session N.State
  head_reply (response status headers, s) =
      offset_reported headers (Dict.get headers "Upload-Offset") s
  head_reply (http_error code, s) = (raised (communication (some code)), s)
  head_reply (url_error, s) = (raised (communication none), s)

  abbrev pub head_with : Option String × Session N.State → Outcome ℕ × Session N.State
  head_with (id, s) = head_reply (send (head_request c (with_request_id id (head_headers c))) s)

  -- _get_offset
  unfoldable pub get_offset : Exec (Session N.State) ℕ
  unfolding draw_id send head_request
  get_offset s = head_with (draw_id (head_headers c) s)

  -- The offset moves, and then the length is committed.
  abbrev pub chunk_moved : Option ℕ → Exec (Session N.State) Unit
  chunk_moved none s = (raised value_error, s)
  chunk_moved (some n) s = (done tt, record s { offset = n; length_deferred = false })

  abbrev pub chunk_reply : ℕ → Reply × Session N.State → Outcome Unit × Session N.State
  chunk_reply size (response status headers, s) = chunk_moved (moved_offset s.offset size headers) s
  chunk_reply size (http_error code, s) =
      (raised (if eqb code 409 then offset_mismatch else upload_failed (some code)), s)
  chunk_reply size (url_error, s) = (raised (upload_failed none), s)

  abbrev pub chunk_with :
      Bytes → Dict String → Option String × Session N.State → Outcome Unit × Session N.State
  chunk_with chunk headers (id, s) =
      chunk_reply (length chunk) (send (patch_request c (with_request_id id headers) chunk) s)

  abbrev pub chunk_send : Bytes → Option (Dict String) → Exec (Session N.State) Unit
  chunk_send chunk none s = (raised value_error, s)
  chunk_send chunk (some headers) s = chunk_with chunk headers (draw_id headers s)

  -- _upload_chunk_once
  unfoldable pub upload_chunk_once : Bytes → Exec (Session N.State) Unit
  unfolding chunk_headers draw_id send patch_request moved_offset
  upload_chunk_once chunk s = chunk_send chunk (chunk_headers c s.length_deferred s.offset chunk) s

  -- _update_stats_after_chunk
  unfoldable pub update_stats : Session N.State → Session N.State
  unfolding after_chunk
  update_stats s = record s { stats = after_chunk s.offset c.chunk_size s.stats }

  abbrev pub opened : Outcome ℕ × Session N.State → Outcome Unit × Session N.State
  opened (done n, s) = (done tt, update_stats (record s { offset = n }))
  opened (raised e, s) = (raised e, record s { connected = false })

  -- `__init__`, from the first request on.
  unfoldable pub start : N.State → Outcome Unit × Session N.State
  unfolding get_offset update_stats
  start net = opened (
      get_offset (record {
        offset = 0;
        length_deferred = false;
        stats = new_stats c.file_size;
        connected = false;
        net = net;
      }))
