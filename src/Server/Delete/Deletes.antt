-- ===== src/Server/Delete/Deletes.antt =====
-- What a DELETE that is let through does.
use resumable_upload.Prelude.{
  ℕ, Bool, ◌≡◌, refl, String, ◌==◌, eq_refl, true, false, none, some, List, [], ◌∷◌, ◌++◌,
  Option-cases, Bool-cases, inl, inr,
}
use resumable_upload.Exec.{Error, ok, raise}
use resumable_upload.Storage.{Upload, Storage}
use resumable_upload.Storage.Contract.{IsLawful}
use resumable_upload.Server.{Server, World, HookCall, count_in, tus_resumable, raw}
use resumable_upload.Server.Patch.Finish.{append_none}
use resumable_upload.Server.Delete.{
  fire_terminate, finalize_delete, check_terminate_veto, check_pending_final_refs, handle_delete,
}

module _ (S : Storage) {can_store : ℕ → Bool} (L : IsLawful S can_store) (v : Server) where
  -- The call of on_upload_terminate, where there is a hook.
  abbrev pub terminate_calls : String → List HookCall
  terminate_calls id = elim v.on_upload_terminate [
    | none ↦ []
    | some hook ↦ HookCall.terminate id ∷ []
  ]

  finalize_delete_lem :
      (id : String) (w : World S.State)
      → finalize_delete S v id w ≡ (
        ok (record { status = 204; headers = tus_resumable; body = raw [] }),
        record w {
          metrics = count_in w.metrics "tusd_uploads_terminated_total" 1 [];
          calls = w.calls ++ terminate_calls id;
        },
      )
  unfolding finalize_delete fire_terminate
  finalize_delete_lem id w = elim (Option-cases v.on_upload_terminate) [
    | inl e ↦ rw (e, append_none w.calls) refl
    | inr (hook, e) ↦ rw e refl
  ]

  refs_clear :
      (id : String) (u : Upload) (w : World S.State)
      → (u.is_partial ≡ true → S.find_pending_finals_for_partial w.store id ≡ ok [])
      → check_pending_final_refs S v id u.is_partial w ≡ (ok none, w)
  unfolding check_pending_final_refs
  refs_clear id u w clear = elim (Bool-cases u.is_partial) [
    | inl e ↦ rw (e, clear e) refl
    | inr e ↦ rw e refl
  ]

  -- DELETE of an upload that no unfinished final refers to, on a server that allows termination and
  -- has no on_before_terminate, answers 204: the upload is gone, and reading its file raises; it is
  -- counted as terminated, and no other counter moves; on_upload_terminate is called once, if there
  -- is one, and no other hook; every other upload and file is as before.
  pub handle_delete-removes :
      (id : String) (w : World S.State) (u : Upload)
      → v.disable_termination ≡ false
      → v.on_before_terminate ≡ none
      → S.get_upload w.store id ≡ some u
      → (u.is_partial ≡ true → S.find_pending_finals_for_partial w.store id ≡ ok [])
      → let (r, w') = handle_delete S v id w in
        (r ≡ ok (record { status = 204; headers = tus_resumable; body = raw [] }))
        × (S.get_upload w'.store id ≡ none)
        × ((e : Error) × (S.read_file w'.store id ≡ raise e))
        × (w'.metrics ≡ count_in w.metrics "tusd_uploads_terminated_total" 1 [])
        × (w'.calls ≡ w.calls ++ terminate_calls id)
        × ((j : String)
            → (id == j) ≡ false
            → (S.get_upload w'.store j ≡ S.get_upload w.store j)
              × (S.read_file w'.store j ≡ S.read_file w.store j))
  unfolding handle_delete check_terminate_veto
  handle_delete-removes id w u enabled no_veto found clear =
      rw
        (
          enabled,
          found,
          no_veto,
          refs_clear id u w clear,
          L.ok-delete_upload w.store id,
          finalize_delete_lem id (record w { store = (S.delete_upload id w.store).1 }),
        )
        (
          refl,
          rw (L.get-delete_upload w.store id id, eq_refl id) refl,
          L.gone-delete_upload w.store id,
          refl,
          refl,
          λ j other. (
            rw (L.get-delete_upload w.store id j, other) refl,
            L.read-delete_upload w.store id j other,
          ),
        )
