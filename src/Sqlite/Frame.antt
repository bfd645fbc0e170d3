-- ===== src/Sqlite/Frame.antt =====
-- Concatenation and assembly change the row and the file of the final upload, and nothing else.
use resumable_upload.Prelude.{
  ℕ, String, ◌==◌, ◌≡◌, refl, ◌∙◌, Bool, true, false, not, ◌||◌, pos, Option, none, some, List, [],
  ◌∷◌, Bool-cases, inl, inr, if◌then◌else◌, Bytes, is_empty, eqb, join,
}
use resumable_upload.Prelude.Dict
use resumable_upload.Prelude.Dict.{Dict, get-put, get-remove}
use resumable_upload.Exec.{Result, ok, raise, Exec, Result-cases, continue, pure, ◌>>=◌}
use resumable_upload.Storage.{Upload}
use resumable_upload.Sqlite.{
  Row, Db, fits_length, stored_length, insert_row, create_file, update_row, update_found,
  update_offset, complete_upload, delete_upload, get_upload, read_file,
}
use resumable_upload.Sqlite.Concat.{
  copy_files, finish_copy, copy_partials, create_final_row, create_final, concatenate_uploads,
  collect_partials, assemble, or_revert, copy_or_revert, assemble_ready, assemble_found,
  is_claimable, try_assemble_final, ready_partials, total_length, exceeds,
}

-- All but the upload `id` is in `t` as it is in `s`.
pub record SameElsewhere (id : String) (s t : Db) : Type 0 where
  pub rows : (j : String) → (id == j) ≡ false → Dict.get t.rows j ≡ Dict.get s.rows j
  pub files : (j : String) → (id == j) ≡ false → Dict.get t.files j ≡ Dict.get s.files j

module _ (id : String) where
  SameElsewhere-refl : (s : Db) → SameElsewhere id s s
  SameElsewhere-refl s = record { rows = λ j h. refl; files = λ j h. refl }

  SameElsewhere-trans :
      {s t u : Db} → SameElsewhere id s t → SameElsewhere id t u → SameElsewhere id s u
  SameElsewhere-trans a b = record {
    rows = λ j h. b.rows j h ∙ a.rows j h;
    files = λ j h. b.files j h ∙ a.files j h;
  }

  put_row-SameElsewhere :
      (s : Db) (r : Row) → SameElsewhere id s (record s { rows = Dict.put s.rows id r })
  put_row-SameElsewhere s r = record {
    rows = λ j h. rw (get-put s.rows id j r, h);
    files = λ j h. refl;
  }

  put_file-SameElsewhere :
      (s : Db) (b : Bytes) → SameElsewhere id s (record s { files = Dict.put s.files id b })
  put_file-SameElsewhere s b = record {
    rows = λ j h. refl;
    files = λ j h. rw (get-put s.files id j b, h);
  }

  continue-SameElsewhere :
      {A B : Type 0} (r : Result A) (f : A → Exec Db B) (s t : Db)
      → SameElsewhere id s t
      → ((a : A) → SameElsewhere id t (f a t).1)
      → SameElsewhere id s (continue r f t).1
  continue-SameElsewhere (ok a) f s t h k = SameElsewhere-trans h (k a)
  continue-SameElsewhere (raise e) f s t h k = h

  -- A `do` block changes nothing elsewhere if its parts do not.
  bind-SameElsewhere :
      {A B : Type 0} (m : Exec Db A) (f : A → Exec Db B)
      → ((s : Db) → SameElsewhere id s (m s).1)
      → ((a : A) (s : Db) → SameElsewhere id s (f a s).1)
      → (s : Db) → SameElsewhere id s ((m >>= f) s).1
  bind-SameElsewhere m f h k s = continue-SameElsewhere (m s).0 f s (m s).1 (h s) (λ a. k a (m s).1)

  insert_row-SameElsewhere : (s : Db) (r : Row) → SameElsewhere id s (insert_row id r s).1
  insert_row-SameElsewhere s r = elim (Bool-cases (fits_length r.upload_length)) [
    | inr large ↦ rw large (SameElsewhere-refl s)
    | inl fits ↦ elim (Bool-cases (Dict.contains s.rows id)) [
      | inl e ↦ rw (fits, e) (SameElsewhere-refl s)
      | inr e ↦ rw (fits, e) (put_row-SameElsewhere s r)
    ]
  ]

  update_found-SameElsewhere :
      (o : Option Row) (test : Row → Bool) (change : Row → Row) (s : Db)
      → SameElsewhere id s (update_found o id test change s).1
  update_found-SameElsewhere none test change s = SameElsewhere-refl s
  update_found-SameElsewhere (some r) test change s = elim (Bool-cases (test r)) [
    | inl e ↦ rw e (put_row-SameElsewhere s (change r))
    | inr e ↦ rw e (SameElsewhere-refl s)
  ]

  update_row-SameElsewhere :
      {A : Type 0} (test : Row → Bool) (change : Row → Row) (f : ℕ → A) (s : Db)
      → SameElsewhere id s ((update_row id test change >>= λ n. pure (f n)) s).1
  update_row-SameElsewhere test change f =
      bind-SameElsewhere (update_row id test change) (λ n. pure (f n))
        (λ s. update_found-SameElsewhere (Dict.get s.rows id) test change s)
        (λ n. SameElsewhere-refl)

  update_offset-SameElsewhere : (n : ℕ) (s : Db) → SameElsewhere id s (update_offset id n s).1
  unfolding update_offset
  update_offset-SameElsewhere n = update_row-SameElsewhere _ _ (λ _. tt)

  complete_upload-SameElsewhere : (s : Db) → SameElsewhere id s (complete_upload id s).1
  unfolding complete_upload
  complete_upload-SameElsewhere = update_row-SameElsewhere _ _ (λ n. eqb n 1)

  delete_upload-SameElsewhere : (s : Db) → SameElsewhere id s (delete_upload id s).1
  unfolding delete_upload
  delete_upload-SameElsewhere s = record {
    rows = λ j h. rw (get-remove s.rows id j, h);
    files = λ j h. rw (get-remove s.files id j, h);
  }

  copy_files-SameElsewhere :
      (ps : List Upload) (n : ℕ) (s : Db) → SameElsewhere id s (copy_files id ps n s).1
  unfolding copy_files
  copy_files-SameElsewhere [] n s = SameElsewhere-refl s
  copy_files-SameElsewhere (p ∷ ps) n s = elim (Result-cases (read_file s p.upload_id)) [
    | inl (bytes, e) ↦
        rw (e, copy_files)
          (SameElsewhere-trans (put_file-SameElsewhere s _) (copy_files-SameElsewhere ps _ _))
    | inr (x, e) ↦ rw (e, copy_files) (SameElsewhere-refl s)
  ]

  finish_copy-SameElsewhere : (total : ℕ) (s : Db) → SameElsewhere id s (finish_copy id total s).1
  finish_copy-SameElsewhere total =
      bind-SameElsewhere (update_offset id total) (λ _. complete_upload id >>= λ _. pure total)
        (update_offset-SameElsewhere total)
        (λ _.
          bind-SameElsewhere (complete_upload id) (λ _. pure total) complete_upload-SameElsewhere
            (λ _. SameElsewhere-refl))

  copy_partials-SameElsewhere :
      (ps : List Upload) (s : Db) → SameElsewhere id s (copy_partials id ps s).1
  unfolding copy_partials
  copy_partials-SameElsewhere ps =
      bind-SameElsewhere (create_file id) (λ _. copy_files id ps 0 >>= finish_copy id)
        (λ s. put_file-SameElsewhere s [])
        (λ _.
          bind-SameElsewhere (copy_files id ps 0) (finish_copy id) (copy_files-SameElsewhere ps 0)
            finish_copy-SameElsewhere)

  create_final_row-SameElsewhere :
      (n : Option ℕ) (m : Dict String) (t : Option ℕ) (ids : List String) (s : Db)
      → SameElsewhere id s (create_final_row id n m t ids s).1
  unfolding create_final_row
  create_final_row-SameElsewhere n m t ids =
      bind-SameElsewhere
        (insert_row id (record {
          upload_length = stored_length n;
          offset = 0;
          metadata = m;
          completed = false;
          expires_at = t;
          is_partial = false;
          concat_partial_ids = some (join " " ids);
        }))
        (λ _. create_file id)
        (λ s. insert_row-SameElsewhere s (record {
          upload_length = stored_length n;
          offset = 0;
          metadata = m;
          completed = false;
          expires_at = t;
          is_partial = false;
          concat_partial_ids = some (join " " ids);
        }))
        (λ _ s. put_file-SameElsewhere s [])

  create_final-SameElsewhere :
      (ids : List String) (m : Dict String) (t : Option ℕ) (found : List Upload × Bool) (s : Db)
      → SameElsewhere id s (create_final id ids m t found s).1
  unfolding create_final
  create_final-SameElsewhere ids m t (ps, true) s =
      bind-SameElsewhere (create_final_row id none m t ids) (λ _. pure none)
        (create_final_row-SameElsewhere none m t ids) (λ _. SameElsewhere-refl) s
  create_final-SameElsewhere ids m t (ps, false) s =
      bind-SameElsewhere (create_final_row id (some (total_length ps)) m t ids)
        (λ _. copy_partials id ps >>= λ _. pure (some (total_length ps)))
        (create_final_row-SameElsewhere (some (total_length ps)) m t ids)
        (λ _.
          bind-SameElsewhere (copy_partials id ps) (λ _. pure (some (total_length ps)))
            (copy_partials-SameElsewhere ps) (λ _. SameElsewhere-refl))
        s

  if-SameElsewhere :
      {A : Type 0} (b : Bool) (m n : Exec Db A)
      → ((s : Db) → SameElsewhere id s (m s).1)
      → ((s : Db) → SameElsewhere id s (n s).1)
      → (s : Db) → SameElsewhere id s ((if b then m else n) s).1
  if-SameElsewhere true m n h k = h
  if-SameElsewhere false m n h k = k

  or_revert-SameElsewhere :
      (total : ℕ) (r : Result ℕ) (s : Db) → SameElsewhere id s (or_revert id total r s).1
  or_revert-SameElsewhere total (ok n) = SameElsewhere-refl
  or_revert-SameElsewhere total (raise e) = update_row-SameElsewhere _ _ (λ _. none)

  copy_or_revert-SameElsewhere :
      (total : ℕ) (ps : List Upload) (s : Db) → SameElsewhere id s (copy_or_revert id total ps s).1
  copy_or_revert-SameElsewhere total ps s =
      SameElsewhere-trans (copy_partials-SameElsewhere ps s)
        (or_revert-SameElsewhere total (copy_partials id ps s).0 (copy_partials id ps s).1)

  assemble-SameElsewhere : (ps : List Upload) (s : Db) → SameElsewhere id s (assemble id ps s).1
  unfolding assemble
  assemble-SameElsewhere ps =
      let total = total_length ps in
      bind-SameElsewhere
        (update_row id (is_claimable total) (λ r. record r { upload_length = pos total }))
        (λ claimed. if not (eqb claimed 1) then pure none else copy_or_revert id total ps)
        (λ s. update_found-SameElsewhere (Dict.get s.rows id) _ _ s)
        (λ claimed.
          if-SameElsewhere (not (eqb claimed 1)) (pure none) (copy_or_revert id total ps)
            SameElsewhere-refl (copy_or_revert-SameElsewhere total ps))

  assemble_ready-SameElsewhere :
      (max_total : Option ℕ) (o : Option (List Upload)) (s : Db)
      → SameElsewhere id s (assemble_ready id max_total o s).1
  assemble_ready-SameElsewhere max_total none = SameElsewhere-refl
  assemble_ready-SameElsewhere max_total (some ps) =
      if-SameElsewhere (exceeds (total_length ps) max_total) (delete_upload id >>= λ _. pure none)
        (assemble id ps)
        (bind-SameElsewhere (delete_upload id) (λ _. pure none) delete_upload-SameElsewhere
          (λ _. SameElsewhere-refl))
        (assemble-SameElsewhere ps)

  pub try_assemble_final-SameElsewhere :
      (max_total : Option ℕ) (s : Db) → SameElsewhere id s (try_assemble_final id max_total s).1
  unfolding try_assemble_final
  try_assemble_final-SameElsewhere max_total s = found (get_upload s id)
    where
      found : (o : Option Upload) → SameElsewhere id s (assemble_found id max_total o s).1
      found none = SameElsewhere-refl s
      found (some final) =
          if-SameElsewhere (final.completed || is_empty final.concat_partial_ids) (pure none)
            (assemble_ready id max_total (ready_partials s final.concat_partial_ids))
            SameElsewhere-refl
            (assemble_ready-SameElsewhere max_total (ready_partials s final.concat_partial_ids)) s

  pub concatenate_uploads-SameElsewhere :
      (ids : List String) (m : Dict String) (t : Option ℕ) (u : Bool) (s : Db)
      → SameElsewhere id s (concatenate_uploads id ids m t u s).1
  unfolding concatenate_uploads
  concatenate_uploads-SameElsewhere ids m t u s =
      continue-SameElsewhere (collect_partials s u ids) (create_final id ids m t) s s
        (SameElsewhere-refl s) (λ found. create_final-SameElsewhere ids m t found s)

  -- The same, as a client of `Storage` sees it.
  pub get_upload-SameElsewhere :
      {s t : Db} (j : String)
      → SameElsewhere id s t
      → (id == j) ≡ false
      → get_upload t j ≡ get_upload s j
  unfolding get_upload
  get_upload-SameElsewhere j h e = rw (h.rows j e)

  pub read_file-SameElsewhere :
      {s t : Db} (j : String)
      → SameElsewhere id s t
      → (id == j) ≡ false
      → read_file t j ≡ read_file s j
  unfolding read_file
  read_file-SameElsewhere j h e = rw (h.files j e)
