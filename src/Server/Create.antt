-- ===== src/Server/Create.antt =====
-- resumable_upload/server/handlers/create.py: POST without `Upload-Concat: final`.
pub mod Handler
pub mod Writes
pub mod Applies
pub mod Creates
use resumable_upload.Prelude.{
  ℕ, ◌+◌, String, ◌<>◌, ◌==◌, Bool, true, false, not, ◌&&◌, ◌||◌, Option, none, some, List, [], ◌∷◌,
  ◌++◌, if◌then◌else◌, is_some, is_empty, or_default, ltb, leb, Bytes, length, ℤ, pos, negsuc, int,
  str, strip,
}
use resumable_upload.Prelude.Dict
use resumable_upload.Prelude.Dict.{Dict}
use resumable_upload.Exec
use resumable_upload.Exec.{Exec, pure}
use resumable_upload.Headers.{Parsed, parsed, malformed, parse_metadata, max_metadata_size}
use resumable_upload.Storage.{Storage}
use resumable_upload.Server.{
  Server, World, Context, Response, HookResult, HookCall, Completion, raw, tus_version, nonempty,
  error_response, hook_error, invoke_pre_hook, apply_completion_response, build_location, on_store,
  count, called,
}
use resumable_upload.Server.Checked.{Checked, accept, refuse, refuse_if, ◌>>=◌, ◌>>◌}
use resumable_upload.Server.Patch.Handler.{expiry_header, fire_complete}

-- _CreatePlan
pub record CreatePlan : Type 0 where
  pub upload_id : String
  pub upload_length : Option ℕ
  pub metadata : Dict String
  pub expires_at : Option ℕ
  pub is_partial : Bool
  pub write_body : Bool

abbrev declared_length : Server → Option ℤ → Checked (Option ℕ)
declared_length v none = refuse (error_response 400 "Invalid Upload-Length header")
declared_length v (some (negsuc _)) =
    refuse (error_response 400 "Upload-Length must not be negative")
declared_length v (some (pos n)) = do
  refuse_if (ltb 0 v.max_size && ltb v.max_size n) 413 "Upload exceeds maximum size"
  accept (some n)

abbrev length_header : Server → Bool → Option String → Checked (Option ℕ)
length_header v true (some t) =
    refuse (error_response 400 "Upload-Length and Upload-Defer-Length are mutually exclusive")
length_header v true none = accept none
length_header v false none = refuse (error_response 400 "Missing Upload-Length header")
length_header v false (some t) = declared_length v (int t)

-- The declared length; `none` is a deferred one.
unfoldable pub plan_create_length : Server → Dict String → Checked (Option ℕ)
plan_create_length v headers =
    length_header v (or_default (Dict.get headers "upload-defer-length") "" == "1")
      (nonempty (Dict.get headers "upload-length"))

abbrev checked_metadata : Parsed → Checked (Dict String)
checked_metadata (parsed m) = accept m
checked_metadata (malformed message) = refuse (error_response 400 message)

unfoldable pub plan_metadata : Server → Dict String → Checked (Dict String)
plan_metadata v headers = checked_metadata (
    parse_metadata v.library.b64decode_text (or_default (Dict.get headers "upload-metadata") "")
      max_metadata_size)

-- The pre-hook on_upload_create may replace the metadata or refuse.
unfoldable pub run_create_hook : Server → String → Dict String → Option ℕ → Checked (Dict String)
run_create_hook v id metadata upload_length = elim v.on_upload_create [
  | none ↦ accept metadata
  | some hook ↦
      invoke_pre_hook (hook id metadata upload_length) (λ r. accept (or_default r metadata))
        (λ status body. refuse (hook_error status body))
]

abbrev pub expiry_time : Server → ℕ → Option ℕ
expiry_time v now = elim v.upload_expiry [ none ↦ none | some d ↦ some (now + d) ]

abbrev is_octet_stream : Dict String → Bool
is_octet_stream headers =
    or_default (Dict.get headers "content-type") "" == "application/offset+octet-stream"

-- _plan_create
unfoldable pub plan_create : Server → Context → Dict String → Bytes → Checked CreatePlan
unfolding plan_create_length plan_metadata run_create_hook
plan_create v c headers body = do
  upload_length ← plan_create_length v headers
  metadata ← plan_metadata v headers
  final_metadata ← run_create_hook v c.uuid metadata upload_length
  accept (record {
    upload_id = c.uuid;
    upload_length = upload_length;
    metadata = final_metadata;
    expires_at = expiry_time v c.now;
    is_partial = strip (or_default (Dict.get headers "upload-concat") "") == "partial";
    write_body = not (is_empty body) && is_octet_stream headers;
  })

-- _create_response
unfoldable pub create_response : Server → CreatePlan → ℕ → Dict String → Response
create_response v plan initial_offset headers = record {
  status = 201;
  headers =
      ("Tus-Resumable", tus_version)
      ∷ ("Location", build_location v plan.upload_id headers)
      ∷ ("Upload-Offset", str initial_offset)
      ∷ expiry_header v plan.expires_at;
  body = raw [];
}
