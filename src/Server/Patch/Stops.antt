-- ===== src/Server/Patch/Stops.antt =====
-- A PATCH that on_chunk_received stops.
use resumable_upload.Prelude.{
  ℕ, Bool, ◌≡◌, refl, String, ◌==◌, eq_refl, true, false, none, some, [], ◌∷◌, ◌++◌, Bytes, length,
  arith,
}
use resumable_upload.Prelude.Dict.{Dict}
use resumable_upload.Exec.{Error, ok, raise}
use resumable_upload.Storage.{Upload, Storage}
use resumable_upload.Storage.Contract.{IsLawful, Fits, has_offset}
use resumable_upload.Server.{Server, World, HookCall, HookResult, rejected, hook_error, count_in}
use resumable_upload.Server.Checked.{accept}
use resumable_upload.Server.Patch.{PatchPlan, plan_patch}
use resumable_upload.Server.Patch.Accepted.{plan_patch-IsAcceptable}
use resumable_upload.Server.Patch.Writes.{written, get-written_elsewhere, read-written, write_lem}
use resumable_upload.Server.Patch.Handler.{fire_chunk_hook, accepted, apply_plan, handle_patch}

module _ (S : Storage) {can_store : ℕ → Bool} (L : IsLawful S can_store) (v : Server) where
  -- Where on_chunk_received raises TusHookError on an accepted PATCH whose plan commits no length,
  -- or one that the storage can store, the answer is the hook's status and body; the upload is
  -- gone, and reading its file raises; the bytes of the body are counted, and no other metric;
  -- on_chunk_received is the only hook that was called; and every other upload and file is as
  -- before.
  pub handle_patch-stops :
      (now : ℕ) (id : String) (headers : Dict String) (body : Bytes) (w : World S.State)
      (u : Upload) (plan : PatchPlan) (hook : String → ℕ → ℕ → HookResult Unit) (status : ℕ)
      (message : String)
      → S.get_upload w.store id ≡ some u
      → plan_patch v now u headers body ≡ accept plan
      → Fits can_store plan.commit_length
      → v.on_chunk_received ≡ some hook
      → hook id plan.new_offset (length body) ≡ rejected status message
      → let (r, w') = handle_patch S v now id headers body w in
        (r ≡ ok (hook_error status message))
        × (S.get_upload w'.store id ≡ none)
        × ((e : Error) × (S.read_file w'.store id ≡ raise e))
        × (w'.metrics ≡ count_in w.metrics "tusd_bytes_received_total" (length body) [])
        × (w'.calls ≡ w.calls ++ HookCall.chunk_received id plan.new_offset (length body) ∷ [])
        × ((j : String)
            → (id == j) ≡ false
            → (S.get_upload w'.store j ≡ S.get_upload w.store j)
              × (S.read_file w'.store j ≡ S.read_file w.store j))
  unfolding handle_patch apply_plan accepted fire_chunk_hook
  handle_patch-stops now id headers body w u plan hook status message found planned fits hooked
        stopped =
      let fine = plan_patch-IsAcceptable v now u headers body plan planned in
      let s = written S id plan body w.store in
      let moved : has_offset plan.expected_offset (S.get_upload w.store id) ≡ true =
        rw (found, fine.at_offset) (ground arith) in
      rw
        (
          found,
          planned,
          write_lem S L v id plan body w fits,
          moved,
          hooked,
          stopped,
          L.ok-delete_upload s id,
        )
        (
          refl,
          rw (L.get-delete_upload s id id, eq_refl id) refl,
          L.gone-delete_upload s id,
          refl,
          refl,
          λ j other. (
            rw (L.get-delete_upload s id j, other)
                (get-written_elsewhere S L id plan body w.store j fits other),
            rw (L.read-delete_upload s id j other, read-written S L id plan body w.store j, other)
                refl,
          ),
        )
