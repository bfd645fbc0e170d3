-- ===== src/Server/Patch/Replies.antt =====
-- What PATCH answers: on a refusal, on a missing upload, on a lost race, and on success.
use resumable_upload.Prelude.{
  ℕ, Bool, ◌+◌, ◌≤◌, ◌≡◌, refl, String, eq_refl, true, false, none, some, [], ◌++◌, eqb, leb, Bytes,
  length, take, arith,
}
use resumable_upload.Prelude.Dict.{Dict}
use resumable_upload.Exec.{Error, ok, raise}
use resumable_upload.Storage.{Upload, Storage}
use resumable_upload.Storage.File.{take-write_at}
use resumable_upload.Storage.Contract.{IsLawful, Fits, bytes_or_empty}
use resumable_upload.Server.{
  Server, World, Response, error_response, count_in, apply_completion_response,
}
use resumable_upload.Server.Checked.{accept, refuse}
use resumable_upload.Server.Patch.{PatchPlan, plan_patch}
use resumable_upload.Server.Patch.Accepted.{plan_patch-IsAcceptable}
use resumable_upload.Server.Patch.Writes.{
  relength, get-written, read-written, write_lem, write-raises,
}
use resumable_upload.Server.Patch.Finish.{
  complete_call, complete_result, finish-reached, finish-short,
}
use resumable_upload.Server.Patch.Appends.{advanced, apply_plan_lem, open_at}
use resumable_upload.Server.Patch.Handler.{patch_response, apply_plan, handle_patch}

module _ (S : Storage) (v : Server) where
  -- A PATCH of a missing upload is answered by 404, one that the plan refuses by the plan's
  -- response, and neither changes the storage, the metrics or the record of hook calls.
  pub handle_patch-refuses :
      (now : ℕ) (id : String) (headers : Dict String) (body : Bytes) (w : World S.State)
      → (S.get_upload w.store id ≡ none
          → handle_patch S v now id headers body w
            ≡ (ok (error_response 404 "Upload not found"), w))
        × ((u : Upload) (r : Response)
            → S.get_upload w.store id ≡ some u
            → plan_patch v now u headers body ≡ refuse r
            → handle_patch S v now id headers body w ≡ (ok r, w))
  unfolding handle_patch
  handle_patch-refuses now id headers body w =
      (λ missing. rw missing refl, λ u r found planned. rw (found, planned) refl)

module _ (S : Storage) {can_store : ℕ → Bool} (L : IsLawful S can_store) (v : Server) where
  -- The race: a plan made when the offset was `plan.expected_offset` is applied to a store where
  -- the offset is another, the file reaches the planned offset, and the length that the plan
  -- commits, if it commits one, can be stored. The answer is 409, no metric is counted and no hook
  -- is called. The record keeps its offset, and all else but its length: the plan's length, if it
  -- commits one, is committed all the same. The file is written, so the chunk of the loser stands
  -- from the planned offset on.
  pub apply_plan-conflict :
      (id : String) (stale u : Upload) (plan : PatchPlan) (body : Bytes) (w : World S.State)
      → S.get_upload w.store id ≡ some u
      → eqb u.offset plan.expected_offset ≡ false
      → Fits can_store plan.commit_length
      → plan.expected_offset ≤ length (bytes_or_empty (S.read_file w.store id))
      → let (r, w') = apply_plan S v id stale plan body w in
        (r ≡ ok (error_response 409 "Concurrent write conflict; use HEAD to re-sync"))
        × (S.get_upload w'.store id ≡ relength plan.commit_length (some u))
        × (w'.metrics ≡ w.metrics)
        × (w'.calls ≡ w.calls)
        × (take (plan.expected_offset + length body) (bytes_or_empty (S.read_file w'.store id))
            ≡ take plan.expected_offset (bytes_or_empty (S.read_file w.store id)) ++ body)
  unfolding apply_plan
  apply_plan-conflict id stale u plan body w found moved fits covered =
      rw (write_lem S L v id plan body w fits, found, moved)
        (
          refl,
          rw (get-written S L id plan body w.store fits, found, moved) refl,
          refl,
          refl,
          rw (read-written S L id plan body w.store id, eq_refl id)
              (take-write_at (bytes_or_empty (S.read_file w.store id)) plan.expected_offset body
                covered),
        )

  -- Where the storage cannot store the length that an accepted plan commits, the handler raises,
  -- and the world is as before.
  pub handle_patch-raises :
      (now : ℕ) (id : String) (headers : Dict String) (body : Bytes) (w : World S.State)
      (u : Upload) (plan : PatchPlan) (n : ℕ)
      → S.get_upload w.store id ≡ some u
      → plan_patch v now u headers body ≡ accept plan
      → plan.commit_length ≡ some n
      → can_store n ≡ false
      → (e : Error) × (handle_patch S v now id headers body w ≡ (raise e, w))
  unfolding handle_patch apply_plan
  handle_patch-raises now id headers body w u plan n found planned commits large =
      let (e, raised) = write-raises S L v id plan body w n commits large in
      (e, rw (found, planned, raised) refl)

  -- The answer to an accepted PATCH of an upload that is not partial, on a server without
  -- on_chunk_received, where the storage can store the length that the plan commits, if any. When
  -- the new offset reaches the length, on_upload_complete is called once, its result is applied to
  -- the 204 response, and the finished uploads are counted; when it does not, no hook is called and
  -- the answer is the plain 204 response with the new offset.
  pub handle_patch-announces :
      (now : ℕ) (id : String) (headers : Dict String) (body : Bytes) (w : World S.State)
      (u : Upload) (plan : PatchPlan)
      → S.get_upload w.store id ≡ some u
      → plan_patch v now u headers body ≡ accept plan
      → Fits can_store plan.commit_length
      → u.is_partial ≡ false
      → v.on_chunk_received ≡ none
      → let (r, w') = handle_patch S v now id headers body w in
        (leb plan.effective_length plan.new_offset ≡ true
          → (r
              ≡ ok (
                  apply_completion_response
                    (complete_result v.on_upload_complete id u.metadata (S.get_file_info id))
                    (patch_response v plan)))
            × (w'.calls ≡ w.calls ++ complete_call v.on_upload_complete id u.metadata)
            × (w'.metrics
                ≡ count_in
                    (count_in w.metrics "tusd_bytes_received_total" (length body) [])
                    "tusd_uploads_finished_total"
                    1
                    []))
        × (leb plan.effective_length plan.new_offset ≡ false
            → (r ≡ ok (patch_response v plan))
              × (w'.calls ≡ w.calls)
              × (w'.metrics ≡ count_in w.metrics "tusd_bytes_received_total" (length body) []))
  unfolding handle_patch apply_completion_response
  handle_patch-announces now id headers body w u plan found planned fits whole quiet =
      let fine = plan_patch-IsAcceptable v now u headers body plan planned in
      let w1 = advanced S id plan body w in
      rw
        (
          found,
          planned,
          apply_plan_lem S L v id u plan body w quiet fits
              (rw (found, fine.at_offset) (ground arith)),
        )
        (
          λ reached.
              rw
                (finish-reached S v L id u plan w1 whole
                  (open_at S L v now id u plan body w.store found fine fits) reached)
                (refl, refl, refl),
          λ short. rw (finish-short S v id u plan w1 short) (refl, refl, refl),
        )
