-- ===== src/Server/Patch/Handler.antt =====
-- `handle_patch` of resumable_upload/server/handlers/patch.py.
use resumable_upload.Prelude.{
  ℕ, String, Bool, Option, none, some, [], ◌∷◌, if◌then◌else◌, leb, Bytes, length, str,
}
use resumable_upload.Prelude.Dict.{Dict}
use resumable_upload.Exec.{Exec, pure, ◌>>=◌, ◌>>◌}
use resumable_upload.Storage.{Upload, Storage}
use resumable_upload.Server.{
  Server, World, Response, HookResult, returned, rejected, failed, HookCall, Completion, raw,
  tus_version, error_response, hook_error, invoke_post_hook, apply_completion_response, on_store,
  count, called,
}
use resumable_upload.Server.Checked.{Checked, accept, refuse}
use resumable_upload.Server.Assembly.{assemble_pending_finals}
use resumable_upload.Server.Patch.{PatchPlan, plan_patch}

abbrev pub expiry_header : Server → Option ℕ → Dict String
expiry_header v none = []
expiry_header v (some t) = ("Upload-Expires", v.library.format_expiry t) ∷ []

-- _patch_response
unfoldable pub patch_response : Server → PatchPlan → Response
patch_response v plan = record {
  status = 204;
  headers =
      ("Tus-Resumable", tus_version)
      ∷ ("Upload-Offset", str plan.new_offset)
      ∷ expiry_header v plan.expires_at;
  body = raw [];
}

-- _run_chunk_hook: the TusHookError of a hook that wants a stop.
abbrev wants_stop : HookResult Unit → Option Response
wants_stop (returned _) = none
wants_stop (rejected status body) = some (hook_error status body)
wants_stop failed = none

module _ (S : Storage) (v : Server) where
  -- _fire_chunk_hook
  abbrev stopping : String → Option Response → Exec (World S.State) (Option Response)
  stopping id none = pure none
  stopping id (some r) = do on_store (S.delete_upload id); pure (some r)

  unfoldable pub fire_chunk_hook : String → ℕ → ℕ → Exec (World S.State) (Option Response)
  fire_chunk_hook id new_offset size = elim v.on_chunk_received [
    | none ↦ pure none
    | some hook ↦ do
      called (HookCall.chunk_received id new_offset size)
      stopping id (wants_stop (hook id new_offset size))
  ]

  -- on_upload_complete for an upload that is not a partial one.
  unfoldable pub fire_complete :
      String → Bool → Dict String → Exec (World S.State) (Option Completion)
  fire_complete id is_partial metadata = elim v.on_upload_complete [
    | none ↦ pure none
    | some hook ↦ if is_partial then pure none else do
      called (HookCall.complete id metadata)
      pure (invoke_post_hook (hook id metadata (S.get_file_info id)))
  ]

  abbrev assemble_if : Bool → String → Exec (World S.State) Unit
  assemble_if is_partial id = if is_partial then assemble_pending_finals S v id else pure tt

  -- What follows when `complete_upload` reports the first completion.
  unfoldable pub on_completed : String → Upload → Exec (World S.State) (Option Completion)
  unfolding fire_complete
  on_completed id upload = do
    count "tusd_uploads_finished_total" 1 []
    result ← fire_complete id upload.is_partial upload.metadata
    assemble_if upload.is_partial id
    pure result

  abbrev complete_first : String → Upload → Bool → Exec (World S.State) (Option Completion)
  complete_first id upload first = if first then on_completed id upload else pure none

  unfoldable pub finish : String → Upload → PatchPlan → Exec (World S.State) (Option Completion)
  unfolding on_completed
  finish id upload plan =
      if leb plan.effective_length plan.new_offset
      then on_store (S.complete_upload id) >>= complete_first id upload
      else pure none

  abbrev pub answer : PatchPlan → Option Completion → Exec (World S.State) Response
  answer plan result = pure (apply_completion_response result (patch_response v plan))

  abbrev pub unless_stopped :
      String → Upload → PatchPlan → Option Response → Exec (World S.State) Response
  unless_stopped id upload plan (some r) = pure r
  unless_stopped id upload plan none = finish id upload plan >>= answer plan

  -- The chunk is written and the offset has moved.
  unfoldable pub accepted : String → Upload → PatchPlan → Bytes → Exec (World S.State) Response
  unfolding fire_chunk_hook finish
  accepted id upload plan body = do
    count "tusd_bytes_received_total" (length body) []
    stopped ← fire_chunk_hook id plan.new_offset (length body)
    unless_stopped id upload plan stopped

  abbrev pub commit : String → Option ℕ → Exec (World S.State) Unit
  commit id none = pure tt
  commit id (some n) = on_store (S.set_upload_length id n)

  -- The writes that lead to the new offset, and whether the offset moved.
  unfoldable pub write : String → PatchPlan → Bytes → Exec (World S.State) Bool
  write id plan body = do
    commit id plan.commit_length
    on_store (S.write_chunk id plan.expected_offset body)
    on_store (S.update_offset_atomic id plan.expected_offset plan.new_offset)

  unfoldable pub apply_plan : String → Upload → PatchPlan → Bytes → Exec (World S.State) Response
  unfolding write accepted
  apply_plan id upload plan body = do
    moved ← write id plan body
    if moved
        then accepted id upload plan body
        else pure (error_response 409 "Concurrent write conflict; use HEAD to re-sync")

  abbrev pub run_plan : String → Upload → Bytes → Checked PatchPlan → Exec (World S.State) Response
  run_plan id upload body (refuse r) = pure r
  run_plan id upload body (accept plan) = apply_plan id upload plan body

  abbrev pub patch_found :
      ℕ → String → Dict String → Bytes → Option Upload → Exec (World S.State) Response
  patch_found now id headers body none = pure (error_response 404 "Upload not found")
  patch_found now id headers body (some upload) =
      run_plan id upload body (plan_patch v now upload headers body)

  unfoldable pub handle_patch : ℕ → String → Dict String → Bytes → Exec (World S.State) Response
  unfolding apply_plan plan_patch
  handle_patch now id headers body w = patch_found now id headers body (S.get_upload w.store id) w
