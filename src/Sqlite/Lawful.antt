-- ===== src/Sqlite/Lawful.antt =====
-- `SQLiteStorage` keeps the contract of a back end.
use resumable_upload.Prelude.{
  ℕ, String, ◌==◌, eq_iff, eq_refl, ◌≡◌, refl, Bool, true, false, Option, none, some, [], arith,
  Option-cases, Bool-cases, eqb, inl, inr, if◌then◌else◌, Bytes,
}
use resumable_upload.Prelude.Dict
use resumable_upload.Prelude.Dict.{Dict, get-put, get-remove, dict_laws}
use resumable_upload.Exec.{Error, os_error, ok, raise}
use resumable_upload.Storage.File.{write_at}
use resumable_upload.Storage.Contract.{
  IsLawful, Fits, new_upload, with_length, with_offset, has_offset,
}
use resumable_upload.Storage.Contract.{completing, is_open, bytes_or_empty}
use resumable_upload.Sqlite.{
  Db, create_upload, set_upload_length, get_upload, update_offset, update_offset_atomic,
  complete_upload, delete_upload, write_chunk, read_file, read_ids, fits_integer, too_large,
}
use resumable_upload.Sqlite.Backend.{sqlite_storage}
use resumable_upload.Sqlite.Frame.{
  get_upload-SameElsewhere, read_file-SameElsewhere, concatenate_uploads-SameElsewhere,
  try_assemble_final-SameElsewhere,
}

module _ (s : Db) (id : String) where
  -- No upload means no row.
  row_absent : get_upload s id ≡ none → Dict.get s.rows id ≡ none
  unfolding get_upload
  row_absent h = ground arith

  ok-create_upload :
      (n : Option ℕ) (m : Dict String) (t : Option ℕ) (p : Bool)
      → Fits fits_integer n
      → get_upload s id ≡ none
      → (create_upload id n m t p s).0 ≡ ok tt
  unfolding create_upload
  ok-create_upload none m t p fits h = rw (row_absent h)
  ok-create_upload (some n) m t p fits h = rw (fits, row_absent h)

  get-create_upload :
      (n : Option ℕ) (m : Dict String) (t : Option ℕ) (p : Bool) (j : String)
      → Fits fits_integer n
      → get_upload s id ≡ none
      → get_upload (create_upload id n m t p s).1 j
        ≡ (if id == j then some (new_upload id n m t p) else get_upload s j)
  unfolding create_upload get_upload read_ids
  get-create_upload none m t p j fits h =
      rw (row_absent h) (simp get-put (ground (arith, eq_iff id j)))
  get-create_upload (some n) m t p j fits h =
      rw (fits, row_absent h) (simp get-put (ground (arith, eq_iff id j)))

  read-create_upload :
      (n : Option ℕ) (m : Dict String) (t : Option ℕ) (p : Bool) (j : String)
      → Fits fits_integer n
      → get_upload s id ≡ none
      → read_file (create_upload id n m t p s).1 j ≡ (if id == j then ok [] else read_file s j)
  unfolding create_upload read_file
  read-create_upload none m t p j fits h = rw (row_absent h) (simp get-put (ground arith))
  read-create_upload (some n) m t p j fits h = rw (fits, row_absent h) (simp get-put (ground arith))

  raise-create_upload :
      (n : ℕ) (m : Dict String) (t : Option ℕ) (p : Bool)
      → fits_integer n ≡ false
      → (e : Error) × (create_upload id (some n) m t p s ≡ (raise e, s))
  unfolding create_upload
  raise-create_upload n m t p large = (too_large, rw large refl)

  get-set_upload_length :
      (n : ℕ) (j : String)
      → fits_integer n ≡ true
      → get_upload (set_upload_length id n s).1 j
        ≡ (if id == j then with_length n (get_upload s j) else get_upload s j)
  unfolding set_upload_length get_upload
  get-set_upload_length n j fits = elim (Option-cases (Dict.get s.rows id)) [
    | inl e ↦ rw (fits, e) (ground (arith, eq_iff id j))
    | inr (r, e) ↦ rw (fits, e) (simp get-put (ground (arith, eq_iff id j)))
  ]

  ok-set_upload_length : (n : ℕ) → fits_integer n ≡ true → (set_upload_length id n s).0 ≡ ok tt
  unfolding set_upload_length
  ok-set_upload_length n fits = rw fits (ground arith)

  raise-set_upload_length :
      (n : ℕ) → fits_integer n ≡ false → (e : Error) × (set_upload_length id n s ≡ (raise e, s))
  unfolding set_upload_length
  raise-set_upload_length n large = (too_large, rw large refl)

  read-set_upload_length :
      (n : ℕ) (j : String) → read_file (set_upload_length id n s).1 j ≡ read_file s j
  unfolding set_upload_length read_file
  read-set_upload_length n j = elim (Bool-cases (fits_integer n)) [
    | inl fits ↦ rw fits (ground arith)
    | inr large ↦ rw large refl
  ]

  ok-update_offset : (n : ℕ) → (update_offset id n s).0 ≡ ok tt
  unfolding update_offset
  ok-update_offset n = ground arith

  get-update_offset :
      (n : ℕ) (j : String)
      → get_upload (update_offset id n s).1 j
        ≡ (if id == j then with_offset n (get_upload s j) else get_upload s j)
  unfolding update_offset get_upload
  get-update_offset n j = elim (Option-cases (Dict.get s.rows id)) [
    | inl e ↦ rw e (ground (arith, eq_iff id j))
    | inr (r, e) ↦ rw e (simp get-put (ground (arith, eq_iff id j)))
  ]

  read-update_offset : (n : ℕ) (j : String) → read_file (update_offset id n s).1 j ≡ read_file s j
  unfolding update_offset read_file
  read-update_offset n j = ground arith

  result-update_offset_atomic :
      (n m : ℕ) → (update_offset_atomic id n m s).0 ≡ ok (has_offset n (get_upload s id))
  unfolding update_offset_atomic get_upload
  result-update_offset_atomic n m = ground arith

  get-update_offset_atomic :
      (n m : ℕ) (j : String)
      → get_upload (update_offset_atomic id n m s).1 j ≡ (
          if id == j
          then (if has_offset n (get_upload s j)
              then with_offset m (get_upload s j)
              else get_upload s j)
          else get_upload s j)
  unfolding update_offset_atomic get_upload
  get-update_offset_atomic n m j = elim (Option-cases (Dict.get s.rows id)) [
    | inl e ↦ rw e (ground (arith, eq_iff id j))
    | inr (r, e) ↦ elim (Bool-cases (eqb r.offset n)) [
      | inl same ↦ rw (e, same) (simp get-put (ground (arith, eq_iff id j)))
      | inr other ↦ rw (e, other) (ground (arith, eq_iff id j))
    ]
  ]

  read-update_offset_atomic :
      (n m : ℕ) (j : String) → read_file (update_offset_atomic id n m s).1 j ≡ read_file s j
  unfolding update_offset_atomic read_file
  read-update_offset_atomic n m j = ground arith

  result-complete_upload : (complete_upload id s).0 ≡ ok (is_open (get_upload s id))
  unfolding complete_upload get_upload
  result-complete_upload = ground arith

  get-complete_upload :
      (j : String)
      → get_upload (complete_upload id s).1 j
        ≡ (if id == j then completing (get_upload s j) else get_upload s j)
  unfolding complete_upload get_upload
  get-complete_upload j = elim (Option-cases (Dict.get s.rows id)) [
    | inl e ↦ rw e (ground (arith, eq_iff id j))
    | inr (r, e) ↦ elim (Bool-cases r.completed) [
      | inl done ↦ rw (e, done) (ground (arith, eq_iff id j))
      | inr todo ↦ rw (e, todo) (simp get-put (ground (arith, eq_iff id j)))
    ]
  ]

  read-complete_upload : (j : String) → read_file (complete_upload id s).1 j ≡ read_file s j
  unfolding complete_upload read_file
  read-complete_upload j = ground arith

  ok-write_chunk : (n : ℕ) (b : Bytes) → (write_chunk id n b s).0 ≡ ok tt
  unfolding write_chunk
  ok-write_chunk n b = refl

  get-write_chunk :
      (n : ℕ) (b : Bytes) (j : String) → get_upload (write_chunk id n b s).1 j ≡ get_upload s j
  unfolding write_chunk get_upload
  get-write_chunk n b j = refl

  read-write_chunk :
      (n : ℕ) (b : Bytes) (j : String)
      → read_file (write_chunk id n b s).1 j
        ≡ (if id == j then ok (write_at (bytes_or_empty (read_file s j)) n b) else read_file s j)
  unfolding write_chunk read_file
  read-write_chunk n b j = simp get-put (ground (arith, eq_iff id j))

  ok-delete_upload : (delete_upload id s).0 ≡ ok tt
  unfolding delete_upload
  ok-delete_upload = refl

  get-delete_upload :
      (j : String)
      → get_upload (delete_upload id s).1 j ≡ (if id == j then none else get_upload s j)
  unfolding delete_upload get_upload
  get-delete_upload j = simp get-remove (ground arith)

  gone-delete_upload : (e : Error) × (read_file (delete_upload id s).1 id ≡ raise e)
  unfolding delete_upload read_file
  gone-delete_upload = (os_error "No such file or directory", simp (get-remove, eq_refl) refl)

  read-delete_upload :
      (j : String) → (id == j) ≡ false → read_file (delete_upload id s).1 j ≡ read_file s j
  unfolding delete_upload read_file
  read-delete_upload j h = simp get-remove (ground arith)

-- `SQLiteStorage` keeps the contract, for declared lengths below 2^63: creation under a free id,
-- the updates, completion, writes and deletion are told by what get_upload and read_file then give
-- for the upload they are about and for every other, concatenation and assembly for every other
-- upload only. A larger length makes create_upload and set_upload_length raise, and changes
-- nothing.
pub sqlite_storage-IsLawful : (path : String → String) → IsLawful (sqlite_storage path) fits_integer
sqlite_storage-IsLawful path = record {
  ok-create_upload = λ s id n m t p. ok-create_upload s id n m t p;
  get-create_upload = λ s id n m t p j. get-create_upload s id n m t p j;
  read-create_upload = λ s id n m t p j. read-create_upload s id n m t p j;
  raise-create_upload = λ s id n m t p. raise-create_upload s id n m t p;
  ok-set_upload_length = ok-set_upload_length;
  raise-set_upload_length = raise-set_upload_length;
  get-set_upload_length = get-set_upload_length;
  read-set_upload_length = read-set_upload_length;
  ok-update_offset = ok-update_offset;
  get-update_offset = get-update_offset;
  read-update_offset = read-update_offset;
  result-update_offset_atomic = result-update_offset_atomic;
  get-update_offset_atomic = get-update_offset_atomic;
  read-update_offset_atomic = read-update_offset_atomic;
  result-complete_upload = result-complete_upload;
  get-complete_upload = get-complete_upload;
  read-complete_upload = read-complete_upload;
  ok-write_chunk = ok-write_chunk;
  get-write_chunk = get-write_chunk;
  read-write_chunk = read-write_chunk;
  ok-delete_upload = ok-delete_upload;
  get-delete_upload = get-delete_upload;
  gone-delete_upload = gone-delete_upload;
  read-delete_upload = read-delete_upload;
  get-concatenate_uploads = λ s id ids m t u j.
      get_upload-SameElsewhere id j (concatenate_uploads-SameElsewhere id ids m t u s);
  read-concatenate_uploads = λ s id ids m t u j.
      read_file-SameElsewhere id j (concatenate_uploads-SameElsewhere id ids m t u s);
  get-try_assemble_final =
      λ s id t j. get_upload-SameElsewhere id j (try_assemble_final-SameElsewhere id t s);
  read-try_assemble_final =
      λ s id t j. read_file-SameElsewhere id j (try_assemble_final-SameElsewhere id t s);
}
