-- ===== src/Server/Create/Handler.antt =====
-- `handle_create` of resumable_upload/server/handlers/create.py.
use resumable_upload.Prelude.{
  ℕ, String, ◌==◌, starts_with, Bool, true, false, not, ◌&&◌, Option, none, some, [], if◌then◌else◌,
  or_default, leb, Bytes, length, strip,
}
use resumable_upload.Prelude.Dict
use resumable_upload.Prelude.Dict.{Dict}
use resumable_upload.Exec.{Exec, pure, ◌>>=◌, ◌>>◌}
use resumable_upload.Storage.{Storage}
use resumable_upload.Server.{
  Server, World, Context, Response, Completion, error_response, apply_completion_response, on_store,
  count,
}
use resumable_upload.Server.Checked.{Checked, accept, refuse}
use resumable_upload.Server.Patch.Handler.{fire_complete}
use resumable_upload.Server.Create.{CreatePlan, plan_create, create_response}
use resumable_upload.Server.Final.{handle_create_final}

abbrev pub reached : ℕ → Option ℕ → Bool
reached offset none = false
reached offset (some n) = leb n offset

abbrev pub concat_header : Dict String → String
concat_header headers = strip (or_default (Dict.get headers "upload-concat") "")

module _ (S : Storage) (v : Server) where
  -- creation-with-upload: the offset after the body, if it is written.
  unfoldable pub write_body : CreatePlan → Bytes → Exec (World S.State) ℕ
  write_body plan body =
      if plan.write_body
      then on_store (S.write_chunk plan.upload_id 0 body)
        >> on_store (S.update_offset plan.upload_id (length body))
        >> pure (length body)
      else pure 0

  abbrev pub completed : CreatePlan → Bool → Exec (World S.State) (Option Completion)
  completed plan false = pure none
  completed plan true = do
    count "tusd_uploads_finished_total" 1 []
    fire_complete S v plan.upload_id plan.is_partial plan.metadata

  unfoldable pub complete_created : CreatePlan → ℕ → Exec (World S.State) (Option Completion)
  unfolding fire_complete
  complete_created plan offset =
      if reached offset plan.upload_length
      then on_store (S.complete_upload plan.upload_id) >>= completed plan
      else pure none

  unfoldable pub apply_create : CreatePlan → Dict String → Bytes → Exec (World S.State) Response
  unfolding write_body complete_created
  apply_create plan headers body = do
    on_store (
        S.create_upload plan.upload_id plan.upload_length plan.metadata plan.expires_at
          plan.is_partial)
    count "tusd_uploads_created_total" 1 []
    offset ← write_body plan body
    result ← complete_created plan offset
    pure (apply_completion_response result (create_response v plan offset headers))

  abbrev run_create : Dict String → Bytes → Checked CreatePlan → Exec (World S.State) Response
  run_create headers body (refuse r) = pure r
  run_create headers body (accept plan) = apply_create plan headers body

  unfoldable pub handle_create : Context → Dict String → Bytes → Exec (World S.State) Response
  unfolding plan_create apply_create
  handle_create c headers body =
      if not (concat_header headers == "") && v.disable_concatenation
      then pure (error_response 400 "Concatenation extension is disabled")
      else if starts_with (concat_header headers) "final"
      then handle_create_final S v c (concat_header headers) headers
      else run_create headers body (plan_create v c headers body)
