-- ===== src/Server/Download/Serves.antt =====
-- What a download answers, and what it serves after the PATCH that finished the upload.
use resumable_upload.Prelude.{
  ℕ, Bool, ◌+◌, ◌≤◌, ◌≡◌, refl, String, eq_refl, true, false, none, some, ◌++◌, leb, length, str,
  take, Bytes,
}
use resumable_upload.Prelude.Dict
use resumable_upload.Prelude.Dict.{Dict}
use resumable_upload.Exec.{ok}
use resumable_upload.Storage.{Upload, Storage}
use resumable_upload.Storage.File.{write_at, take-write_at}
use resumable_upload.Storage.Contract.{IsLawful, Fits, bytes_or_empty}
use resumable_upload.Server.{Server, World, Response, stream, error_response, has_expired}
use resumable_upload.Server.Checked.{accept}
use resumable_upload.Server.Patch.{PatchPlan, plan_patch}
use resumable_upload.Server.Patch.Accepted.{plan_patch-IsAcceptable}
use resumable_upload.Server.Patch.Appends.{
  extended, handle_patch-appends, handle_patch-store, read-final_store,
}
use resumable_upload.Server.Patch.Writes.{written, read-written}
use resumable_upload.Server.Patch.Handler.{handle_patch}
use resumable_upload.Server.Download.{plan_get, download_response, handle_get_download}

module _ (S : Storage) (v : Server) where
  -- A download changes nothing. It answers 410 for an expired upload, 404 for one that is not
  -- completed, and for any other the whole file with its headers, where the file can be read.
  pub handle_get_download-serves :
      (now : ℕ) (id : String) (w : World S.State) (u : Upload)
      → S.get_upload w.store id ≡ some u
      → (has_expired u.expires_at now ≡ true
          → handle_get_download S v now id w ≡ (ok (error_response 410 "Upload has expired"), w))
        × (has_expired u.expires_at now ≡ false
            → u.completed ≡ false
            → handle_get_download S v now id w ≡ (ok (error_response 404 "Upload not complete"), w))
        × ((bytes : Bytes)
            → has_expired u.expires_at now ≡ false
            → u.completed ≡ true
            → S.read_file w.store id ≡ ok bytes
            → handle_get_download S v now id w ≡ (ok (download_response v u bytes), w))
  unfolding handle_get_download plan_get
  handle_get_download-serves now id w u found = (
    λ late. rw (found, late) refl,
    λ live open_upload. rw (found, live, open_upload) refl,
    λ bytes live done readable. rw (found, live, done, readable) refl,
  )

module _ (S : Storage) {can_store : ℕ → Bool} (L : IsLawful S can_store) (v : Server) where
  read_after :
      (now : ℕ) (id : String) (headers : Dict String) (body : Bytes) (w : World S.State)
      (u : Upload) (plan : PatchPlan)
      → S.get_upload w.store id ≡ some u
      → plan_patch v now u headers body ≡ accept plan
      → Fits can_store plan.commit_length
      → u.is_partial ≡ false
      → v.on_chunk_received ≡ none
      → S.read_file (handle_patch S v now id headers body w).1.store id
        ≡ ok (write_at (bytes_or_empty (S.read_file w.store id)) plan.expected_offset body)
  read_after now id headers body w u plan found planned fits whole quiet =
      rw
        (
          handle_patch-store S L v now id headers body w u plan found planned fits whole quiet,
          read-final_store S L v id plan (written S id plan body w.store) id,
          read-written S L id plan body w.store id,
          eq_refl id,
        )
        refl

  -- A client that downloads after the PATCH that finished its upload, for an upload that is not
  -- partial on a server without on_chunk_received and a length to commit that the storage can
  -- store, if there is one, is answered 200 with the upload's length and served a file that holds,
  -- up to the new offset, what it held up to the old one and then the body of the PATCH, provided
  -- that it reached the old one and the upload has not expired by then.
  pub handle_get_download-handle_patch :
      (now later : ℕ) (id : String) (headers : Dict String) (body : Bytes) (w : World S.State)
      (u : Upload) (plan : PatchPlan)
      → S.get_upload w.store id ≡ some u
      → plan_patch v now u headers body ≡ accept plan
      → Fits can_store plan.commit_length
      → u.is_partial ≡ false
      → v.on_chunk_received ≡ none
      → u.offset ≤ length (bytes_or_empty (S.read_file w.store id))
      → has_expired u.expires_at later ≡ false
      → leb plan.effective_length (u.offset + length body) ≡ true
      → (r : Response) × (bytes : Bytes) × ((handle_get_download S v later id
            (handle_patch S v now id headers body w).1).0
          ≡ ok r)
        × (r.status ≡ 200)
        × (r.body ≡ stream bytes)
        × (take (u.offset + length body) bytes
            ≡ take u.offset (bytes_or_empty (S.read_file w.store id)) ++ body)
        × (Dict.get r.headers "Content-Length" ≡ some (str plan.effective_length))
  unfolding download_response Dict.get
  handle_get_download-handle_patch now later id headers body w u plan found planned fits whole quiet
        covered live reached =
      let fine = plan_patch-IsAcceptable v now u headers body plan planned in
      let (stored, appended, _) =
        handle_patch-appends S L v now id headers body w u plan found planned fits whole quiet
          covered in
      let w' = (handle_patch S v now id headers body w).1 in
      let readable = read_after now id headers body w u plan found planned fits whole quiet in
      let (_, _, served) =
        handle_get_download-serves S v later id w' (extended u (length body) plan.effective_length)
          stored in
      (
        download_response v (extended u (length body) plan.effective_length) _,
        write_at (bytes_or_empty (S.read_file w.store id)) plan.expected_offset body,
        rw (served _ live reached readable) refl,
        refl,
        refl,
        rw fine.at_offset
            (take-write_at (bytes_or_empty (S.read_file w.store id)) u.offset body covered),
        refl,
      )
