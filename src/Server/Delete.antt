-- ===== src/Server/Delete.antt =====
-- resumable_upload/server/handlers/delete.py, and `terminate_upload` of core.py.
pub mod Deletes
pub mod Protects
use resumable_upload.Prelude.{
  ℕ, String, Bool, true, false, Option, none, some, List, [], ◌∷◌, if◌then◌else◌, is_empty,
}
use resumable_upload.Exec.{
  Error, value_error, not_implemented, integrity_error, os_error, overflow_error, Result, ok, raise,
  Exec, pure, throw, ◌>>=◌, ◌>>◌,
}
use resumable_upload.Storage.{Upload, Storage}
use resumable_upload.Server.{
  Server, World, Response, HookResult, returned, rejected, failed, HookCall, raw, tus_resumable,
  error_response, hook_error, invoke_pre_hook, on_store, count, called,
}

module _ (S : Storage) (v : Server) where
  -- on_upload_terminate, whose result and exceptions are dropped.
  unfoldable pub fire_terminate : String → Exec (World S.State) Unit
  fire_terminate id = elim v.on_upload_terminate [
    | none ↦ pure tt
    | some hook ↦ called (HookCall.terminate id)
  ]

  -- _finalize_delete
  unfoldable pub finalize_delete : String → Exec (World S.State) Response
  unfolding fire_terminate
  finalize_delete id = do
    count "tusd_uploads_terminated_total" 1 []
    fire_terminate id
    pure (record { status = 204; headers = tus_resumable; body = raw [] })

  abbrev veto_of : HookResult Unit → Option Response
  veto_of r = invoke_pre_hook r (λ _. none) (λ status body. some (hook_error status body))

  -- _check_terminate_veto
  unfoldable pub check_terminate_veto : String → Exec (World S.State) (Option Response)
  check_terminate_veto id = elim v.on_before_terminate [
    | none ↦ pure none
    | some hook ↦ called (HookCall.before_terminate id) >> pure (veto_of (hook id))
  ]

  abbrev pub blocked : Option Response
  blocked = some (error_response 409 "Partial upload is referenced by an unfinished concatenation")

  -- _check_pending_final_refs
  abbrev pending_final_refs : Result (List String) → Exec (World S.State) (Option Response)
  pending_final_refs (ok ids) = pure (if is_empty ids then none else blocked)
  pending_final_refs (raise (not_implemented _)) = pure none
  pending_final_refs (raise (value_error e)) = throw (value_error e)
  pending_final_refs (raise (integrity_error e)) = throw (integrity_error e)
  pending_final_refs (raise (os_error e)) = throw (os_error e)
  pending_final_refs (raise (overflow_error e)) = throw (overflow_error e)

  unfoldable pub check_pending_final_refs : String → Bool → Exec (World S.State) (Option Response)
  check_pending_final_refs id false w = (ok none, w)
  check_pending_final_refs id true w =
      pending_final_refs (S.find_pending_finals_for_partial w.store id) w

  abbrev delete_unless : String → Option Response → Exec (World S.State) Response
  delete_unless id (some r) = pure r
  delete_unless id none = on_store (S.delete_upload id) >> finalize_delete id

  abbrev delete_if_allowed : String → Upload → Option Response → Exec (World S.State) Response
  delete_if_allowed id u (some r) = pure r
  delete_if_allowed id u none = check_pending_final_refs id u.is_partial >>= delete_unless id

  abbrev delete_found : String → Option Upload → Exec (World S.State) Response
  delete_found id none = pure (error_response 404 "Upload not found")
  delete_found id (some u) = check_terminate_veto id >>= delete_if_allowed id u

  unfoldable pub handle_delete : String → Exec (World S.State) Response
  unfolding check_terminate_veto check_pending_final_refs finalize_delete
  handle_delete id w =
      (if v.disable_termination
          then pure (error_response 405 "Termination extension is disabled")
          else delete_found id (S.get_upload w.store id))
        w

  abbrev terminate_found : String → Option Upload → Exec (World S.State) Bool
  terminate_found id none = pure false
  terminate_found id (some u) = do
    on_store (S.delete_upload id)
    count "tusd_uploads_terminated_total" 1 []
    fire_terminate id
    pure true

  unfoldable pub terminate_upload : String → Exec (World S.State) Bool
  unfolding fire_terminate
  terminate_upload id w = terminate_found id (S.get_upload w.store id) w
