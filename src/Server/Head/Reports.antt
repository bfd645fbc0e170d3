-- ===== src/Server/Head/Reports.antt =====
-- What HEAD reports of an upload that is not waiting for its assembly.
use resumable_upload.Prelude.{
  ℕ, Bool, ◌+◌, ◌≤◌, ◌≡◌, refl, String, true, false, none, some, length, str, Bytes,
}
use resumable_upload.Prelude.Dict
use resumable_upload.Prelude.Dict.{Dict}
use resumable_upload.Exec.{ok}
use resumable_upload.Storage.{Upload, Storage}
use resumable_upload.Storage.Contract.{IsLawful, Fits, bytes_or_empty}
use resumable_upload.Server.{Server, World, Response, error_response, has_expired}
use resumable_upload.Server.Checked.{accept}
use resumable_upload.Server.Patch.{PatchPlan, plan_patch}
use resumable_upload.Server.Patch.Accepted.{plan_patch-IsAcceptable}
use resumable_upload.Server.Patch.Appends.{handle_patch-appends}
use resumable_upload.Server.Patch.Handler.{handle_patch}
use resumable_upload.Server.Head.{is_pending_final, head_headers, build_head_response, handle_head}

module _ (S : Storage) (v : Server) where
  -- HEAD of an upload that is not a pending final changes nothing. It answers 410 once the upload
  -- has expired, and otherwise 200 with the stored offset, and with the declared length where there
  -- is one.
  pub handle_head-reports :
      (now : ℕ) (id : String) (w : World S.State) (u : Upload)
      → S.get_upload w.store id ≡ some u
      → is_pending_final (some u) ≡ false
      → (has_expired u.expires_at now ≡ true
          → handle_head S v now id w ≡ (ok (error_response 410 "Upload has expired"), w))
        × (has_expired u.expires_at now ≡ false
            → (r : Response) × (handle_head S v now id w ≡ (ok r, w))
              × (r.status ≡ 200)
              × (Dict.get r.headers "Upload-Offset" ≡ some (str u.offset))
              × ((n : ℕ)
                  → u.upload_length ≡ some n
                  → Dict.get r.headers "Upload-Length" ≡ some (str n)))
  unfolding handle_head build_head_response head_headers Dict.get
  handle_head-reports now id w u found ready = (
    λ late. rw (found, ready, late) refl,
    λ live. (
      build_head_response v now (some u),
      rw (found, ready) refl,
      rw live refl,
      rw (live, ready) refl,
      λ n declared. rw (live, ready, declared) refl,
    ),
  )

module _ (S : Storage) {can_store : ℕ → Bool} (L : IsLawful S can_store) (v : Server) where
  -- A client that asks by HEAD after its PATCH was accepted, for an upload that is not partial on a
  -- server without on_chunk_received and a length to commit that the storage can store, if there is
  -- one, is told the old offset plus the length of the body, as long as
  -- the upload has not expired by then.
  pub handle_head-handle_patch :
      (now later : ℕ) (id : String) (headers : Dict String) (body : Bytes) (w : World S.State)
      (u : Upload) (plan : PatchPlan)
      → S.get_upload w.store id ≡ some u
      → plan_patch v now u headers body ≡ accept plan
      → Fits can_store plan.commit_length
      → u.is_partial ≡ false
      → v.on_chunk_received ≡ none
      → u.offset ≤ length (bytes_or_empty (S.read_file w.store id))
      → has_expired u.expires_at later ≡ false
      → (r : Response) × ((handle_head S v later id (handle_patch S v now id headers body w).1).0
          ≡ ok r)
        × (r.status ≡ 200)
        × (Dict.get r.headers "Upload-Offset" ≡ some (str (u.offset + length body)))
        × (Dict.get r.headers "Upload-Length" ≡ some (str plan.effective_length))
  handle_head-handle_patch now later id headers body w u plan found planned fits whole quiet covered
        live =
      let fine = plan_patch-IsAcceptable v now u headers body plan planned in
      let w' = (handle_patch S v now id headers body w).1 in
      let (stored, _, _) =
        handle_patch-appends S L v now id headers body w u plan found planned fits whole quiet
          covered in
      let (r, answer, good, at_offset, at_length) =
        (handle_head-reports S v later id w' _ stored (rw fine.not_final refl)).1 live in
      (r, rw answer refl, good, at_offset, at_length plan.effective_length refl)
