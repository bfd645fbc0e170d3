-- ===== src/Client/TusClient.antt =====
-- resumable_upload/client/client.py: the client and its requests. A file is given
-- as a path or as a stream, and its fingerprint with it. Callbacks that only look are left out, but
-- the URLs that `on_upload_url_available` is told are kept, the last one first.
pub mod Files
pub mod Concatenation
pub mod Queries
pub mod Parallel
pub mod Stored
pub mod Resumes
use resumable_upload.Prelude.{
  ℕ, String, ◌<>◌, ◌==◌, starts_with, not, ◌&&◌, ◌||◌, Bool, true, false, Option, none, some, List,
  [], ◌∷◌, if◌then◌else◌, is_empty, is_some, eqb, ltb, Bytes, length, join, str,
}
use resumable_upload.Prelude.Dict
use resumable_upload.Prelude.Dict.{Dict}
use resumable_upload.Client.Outcome.{
  Failure, communication, upload_failed, offset_mismatch, os_error, value_error, Outcome, done,
  raised, Exec, pure, throw, ◌>>=◌, ◌>>◌,
}
use resumable_upload.Client.Network.{Request, Reply, response, http_error, url_error, Network}
use resumable_upload.Client.Protocol.{Checksum, encode_metadata}
use resumable_upload.Client.Uploader.{
  Config, Session, hooked, has_request_id, with_request_id, start,
}
use resumable_upload.Client.Uploader.Upload.{upload}
use resumable_upload.Client.UrlStorage.{UrlStorage}

-- The attributes of `TusClient`. `b64encode` is base64 over the encoding of metadata
-- and `b64decode` its inverse, where there is one, `urljoin` that of
-- urllib, `via_proxy` what getproxies and proxy_bypass make of a URL.
pub record TusClient : Type 0 where
  pub url : String
  pub chunk_size : ℕ
  pub checksum : Checksum
  pub store_url : Bool
  pub headers : Dict String
  pub max_retries : ℕ
  pub retry_delay : ℕ
  pub override_patch_method : Bool
  pub add_request_id : Bool
  pub before_request : Option (String → String → Dict String → Dict String)
  pub on_should_retry : Option (Failure → ℕ → Bool)
  pub digest : String → Bytes → Option String
  pub b64encode : String → String
  pub b64decode : String → Option String
  pub urljoin : String → String → String
  pub via_proxy : String → Bool

-- What is to be uploaded: no argument, a path without a file, a path by its last part, or a stream.
pub data Source : Type 0 where
  no_source missing_file : Source
  path : String → Bytes → Source
  stream : Bytes → Source

-- The name that goes into the metadata, and the bytes.
pub record Opened : Type 0 where
  pub filename : Option String
  pub bytes : Bytes

abbrev pub open_source : Source → Outcome Opened
open_source no_source = raised value_error
open_source missing_file = raised os_error
open_source (path name bytes) = done (record { filename = some name; bytes = bytes })
open_source (stream bytes) = done (record { filename = none; bytes = bytes })

-- `metadata["filename"]`, where there is a path and no such entry.
abbrev pub with_filename : Option String → Dict String → Dict String
with_filename none metadata = metadata
with_filename (some name) metadata =
    if Dict.contains metadata "filename" then metadata else Dict.put metadata "filename" name

-- The attributes that an uploader gets from its client.
unfoldable pub uploader_config : TusClient → Bytes → String → Config
uploader_config c file url = record {
  url = url;
  file = file;
  file_size = length file;
  chunk_size = c.chunk_size;
  checksum = c.checksum;
  digest = c.digest;
  headers = c.headers;
  max_retries = c.max_retries;
  retry_delay = c.retry_delay;
  via_proxy = c.via_proxy url;
  override_patch_method = c.override_patch_method;
  add_request_id = c.add_request_id;
  before_request = c.before_request;
  on_should_retry = c.on_should_retry;
}

abbrev pub truthy : Option String → Option String
truthy none = none
truthy (some t) = if t == "" then none else some t

-- What a creation sends besides the metadata.
pub record Creation : Type 0 where
  pub file_size : ℕ
  pub initial_data : Option Bytes
  pub extra_headers : Dict String
  pub defer_length : Bool

module _ (c : TusClient) where
  abbrev data_headers : Option Bytes → Dict String → Dict String
  data_headers none headers = headers
  data_headers (some bytes) headers =
      Dict.put (Dict.put headers "Content-Type" "application/offset+octet-stream") "Content-Length"
        (str (length bytes))

  abbrev sent_body : Option Bytes → Option Bytes
  sent_body none = none
  sent_body (some bytes) = if is_empty bytes then none else some bytes

  -- The headers of the POST before the request id.
  unfoldable pub create_headers : Creation → List String → Dict String
  unfolding join
  create_headers r entries =
      let base = Dict.merge (("Tus-Resumable", "1.0.0") ∷ []) c.headers in
      let sized =
        if r.defer_length
        then Dict.put base "Upload-Defer-Length" "1"
        else Dict.put base "Upload-Length" (str r.file_size) in
      let extended = Dict.merge sized r.extra_headers in
      let described =
        if is_empty entries
        then extended
        else Dict.put extended "Upload-Metadata" (join "," entries) in
      data_headers r.initial_data described

  -- A `Location` that is not a whole URL is joined to the client's.
  abbrev pub located : Option String → Outcome String
  located none = raised (communication none)
  located (some location) =
      done (if starts_with location "http" then location else c.urljoin c.url location)

  abbrev pub create_reply : Reply → Outcome String
  create_reply (response status headers) = located (truthy (Dict.get headers "Location"))
  create_reply (http_error code) = raised (communication none)
  create_reply url_error = raised (communication none)

-- The URL storage and the network.
pub record Outside (Urls Net : Type 0) : Type 0 where
  pub urls : Urls
  pub announced : List String
  pub net : Net

module _ (U : UrlStorage) (N : Network) (c : TusClient) where
  abbrev pub State : Type 0
  State = Outside U.State N.State

  -- _open of _ClientAttrs
  abbrev pub open_url : String → String → Dict String → Option Bytes → State → Reply × State
  open_url method url headers body s =
      let (reply, net) =
        N.urlopen
          (record {
            method = method;
            url = url;
            headers = hooked c.before_request method url headers;
            body = body;
          })
          s.net in
      (reply, record s { net = net })

  -- maybe_add_request_id, and then _open
  unfoldable pub request : String → String → Dict String → Option Bytes → State → Reply × State
  request method url headers body s =
      let (id, net) : Option String × N.State =
        (if c.add_request_id && not (has_request_id headers)
          then (let (id, net) = N.uuid4 s.net in (some id, net))
          else (none, s.net)) in
      open_url method url (with_request_id id headers) body (record s { net = net })

  abbrev create_with : Creation → Option (List String) → Exec State String
  create_with r none s = (raised value_error, s)
  create_with r (some entries) s =
      let (reply, s') =
        request "POST" c.url (create_headers c r entries) (sent_body c r.initial_data) s in
      (create_reply c reply, s')

  -- _create_upload
  unfoldable pub create_upload : Dict String → Creation → Exec State String
  unfolding create_headers request encode_metadata
  create_upload metadata r s = create_with r (encode_metadata c.b64encode metadata) s

  unfoldable pub create_deferred_upload : Dict String → Exec State String
  unfolding create_upload
  create_deferred_upload metadata =
      create_upload metadata
        (record { file_size = 0; initial_data = none; extra_headers = []; defer_length = true })

  -- The `Uploader` for a URL, opened.
  abbrev pub opened_at : Outcome Unit × Session N.State → State → Outcome (Session N.State) × State
  opened_at (done _, t) s = (done t, record s { net = t.net })
  opened_at (raised e, t) s = (raised e, record s { net = t.net })

  unfoldable pub open_uploader : Bytes → String → Exec State (Session N.State)
  unfolding uploader_config start
  open_uploader file url s = opened_at (start N (uploader_config c file url) s.net) s

  abbrev pub announce : String → Exec State Unit
  announce url s = (done tt, record s { announced = url ∷ s.announced })

  abbrev delete_reply : Reply → Outcome Unit
  delete_reply (response status headers) = done tt
  delete_reply (http_error code) = if eqb code 404 then done tt else raised (communication none)
  delete_reply url_error = raised (communication none)

  unfoldable pub delete_upload : String → Exec State Unit
  unfolding request
  delete_upload url s =
      let headers : Dict String =
        Dict.merge (("Tus-Resumable", "1.0.0") ∷ ("Content-Length", "0") ∷ []) c.headers in
      let (reply, s') = request "DELETE" url headers none s in (delete_reply reply, s')

  -- The entry for the file, as its fingerprint and URL.
  unfoldable pub find_previous_uploads : String → State → List (String × String)
  find_previous_uploads fingerprint s = elim (truthy (U.get_url fingerprint s.urls)) [
    | none ↦ []
    | some url ↦ (fingerprint, url) ∷ []
  ]
