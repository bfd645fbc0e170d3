-- ===== src/EndToEnd.antt =====
-- The client's uploader (resumable_upload/client/uploader.py) against the server
-- (resumable_upload/server/core.py) over a link that may lose requests and answers.
pub mod Patches
pub mod Requests
pub mod Served
pub mod Link
pub mod Lawful
pub mod Accepts
pub mod Open
pub mod Completes
pub mod Free
pub mod Metadata
pub mod Reports
pub mod Dropped
pub mod Delivers
use resumable_upload.Prelude.{
  ℕ, ◌≤◌, ◌≡◌, String, ◌==◌, Bool, true, false, Option, none, some, List, [], ◌∷◌, if◌then◌else◌,
  or_default, Bytes, length, take,
}
use resumable_upload.Prelude.Dict.{Dict}
use resumable_upload.Exec.{Result, ok, raise}
use resumable_upload.Headers.{no_origins}
use resumable_upload.Storage.{Upload, Storage}
use resumable_upload.Storage.Contract.{bytes_or_empty}
use resumable_upload.Server.{Server, World, Response}
use resumable_upload.Client.Network.{Wire, answered}

-- A server without expiry, CORS and the hooks of uploads.
pub record IsPlainServer (v : Server) : Type 0 where
  pub no_expiry : v.upload_expiry ≡ none
  pub no_cors : v.cors_allow_origins ≡ no_origins
  pub no_request_hook : v.on_incoming_request ≡ none
  pub no_chunk_hook : v.on_chunk_received ≡ none
  pub no_complete_hook : v.on_upload_complete ≡ none

-- What the transport sends for an outcome of `handle_request`.
abbrev pub to_wire : Result Response → Wire
to_wire (ok r) = answered r.status r.headers false
to_wire (raise _) = answered 500 [] false

module _ (S : Storage) (id : String) where
  -- The upload is there, is neither partial nor final, and its file reaches its offset.
  pub record IsReady (s : S.State) : Type 0 where
    pub upload : Upload
    pub found : S.get_upload s id ≡ some upload
    pub whole : upload.is_partial ≡ false
    pub not_final : upload.concat_partial_ids ≡ []
    pub covered : upload.offset ≤ length (bytes_or_empty (S.read_file s id))

  abbrev pub up_to : Option Upload → Bytes → Bytes
  up_to none bytes = []
  up_to (some u) bytes = take u.offset bytes

  -- The bytes that the server has acknowledged.
  abbrev pub acknowledged : S.State → Bytes
  acknowledged s = up_to (S.get_upload s id) (bytes_or_empty (S.read_file s id))
