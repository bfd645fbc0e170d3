-- ===== src/Sqlite/Contents.antt =====
-- The file that a concatenation makes out of complete partials.
use native.Mathlib.Nat.{zero-add, add-zero, add_assoc}
use resumable_upload.Prelude.{
  ℕ, ◌+◌, ◌≡◌, refl, String, ◌==◌, eq_refl, Bool, true, false, Option, none, some, List, [], ◌∷◌,
  ◌++◌, append-nil, append_assoc, length, length-append, Bytes, join, pos,
}
use resumable_upload.Prelude.Dict
use resumable_upload.Prelude.Dict.{Dict, get-put}
use resumable_upload.Exec.{ok}
use resumable_upload.Storage.{Upload}
use resumable_upload.Storage.Contract.{bytes_or_empty}
use resumable_upload.Sqlite.{
  Row, Db, fits_integer, get_upload, read_file, to_upload, update_offset, complete_upload,
}
use resumable_upload.Sqlite.Concat.{
  append_file, copy_files, copy_partials, finish_copy, collect_partials, total_length, create_final,
  create_final_row, concatenate_uploads,
}

-- The partials' files one after the other.
abbrev pub contents : Db → List Upload → Bytes
contents s [] = []
contents s (p ∷ ps) = bytes_or_empty (read_file s p.upload_id) ++ contents s ps

-- Each partial has a file, and none of them is the final upload.
abbrev pub Present : Db → String → List Upload → Type 0
Present s final [] = Unit
Present s final (p ∷ ps) =
    ((final == p.upload_id) ≡ false)
    × (read_file s p.upload_id ≡ ok (bytes_or_empty (read_file s p.upload_id)))
    × Present s final ps

-- The files of two states agree but for one upload.
abbrev pub AgreeBut : String → Db → Db → Type 0
AgreeBut final s s' = (j : String) → (final == j) ≡ false → Dict.get s'.files j ≡ Dict.get s.files j

read_file-agree :
    (final : String) (s s' : Db) (j : String)
    → AgreeBut final s s'
    → (final == j) ≡ false
    → read_file s' j ≡ read_file s j
unfolding read_file
read_file-agree final s s' j agree other = rw (agree j other) refl

pub contents-agree :
    (final : String) (s s' : Db) (ps : List Upload)
    → AgreeBut final s s'
    → Present s final ps
    → (contents s' ps ≡ contents s ps) × Present s' final ps
contents-agree final s s' [] agree present = (refl, tt)
contents-agree final s s' (p ∷ ps) agree (other, readable, present) =
    let (same, present') = contents-agree final s s' ps agree present in
    rw (read_file-agree final s s' p.upload_id agree other)
      (rw same refl, (other, readable, present'))

abbrev pub Copied : Db → Db → String → Bytes → Type 0
Copied s s' final bytes =
    (s'.rows ≡ s.rows) × (Dict.get s'.files final ≡ some bytes) × AgreeBut final s s'

copy_files_step :
    (final : String) (p : Upload) (ps : List Upload) (total : ℕ) (s : Db) (bytes : Bytes)
    → read_file s p.upload_id ≡ ok bytes
    → copy_files final (p ∷ ps) total s
      ≡ copy_files final ps (total + length bytes) (append_file final bytes s).1
unfolding copy_files
copy_files_step final p ps total s bytes readable = rw (readable, copy_files) refl

pub copy_files_lem :
    (final : String) (ps : List Upload) (total : ℕ) (s : Db) (old : Bytes)
    → Dict.get s.files final ≡ some old
    → Present s final ps
    → ((copy_files final ps total s).0 ≡ ok (total + length (contents s ps)))
      × Copied s (copy_files final ps total s).1 final (old ++ contents s ps)
unfolding copy_files
copy_files_lem final [] total s old have present =
    (rw (add-zero total) refl, (refl, rw (have, append-nil) refl, λ j other. refl))
copy_files_lem final (p ∷ ps) total s old have (other, readable, present) =
    let bytes = bytes_or_empty (read_file s p.upload_id) in
    let s1 = (append_file final bytes s).1 in
    let agree : AgreeBut final s s1 = λ j away. rw (get-put, away) refl in
    let (same, present') = contents-agree final s s1 ps agree present in
    let (answer, (rows, file, rest)) =
      copy_files_lem final ps (total + length bytes) s1 (old ++ bytes)
        (rw (get-put, eq_refl final, have) refl) present' in
    rw (copy_files_step final p ps total s bytes readable) (
      rw (answer, same, length-append {0} bytes (contents s ps), add_assoc) refl,
      (rows, rw file (rw (same, append_assoc) refl), λ j away. rw (rest j away) (agree j away)),
    )

abbrev row_of : List Upload → Dict String → Option ℕ → List String → Row
row_of ps metadata expires_at ids = record {
  upload_length = pos (total_length ps);
  offset = 0;
  metadata = metadata;
  completed = false;
  expires_at = expires_at;
  is_partial = false;
  concat_partial_ids = some (join " " ids);
}

pub finish_copy_lem :
    (id : String) (total : ℕ) (s : Db) (r : Row)
    → Dict.get s.rows id ≡ some r
    → r.completed ≡ false
    → ((finish_copy id total s).0 ≡ ok total)
      × ((finish_copy id total s).1.files ≡ s.files)
      × (Dict.get (finish_copy id total s).1.rows id
          ≡ some (record r { offset = total; completed = true }))
unfolding update_offset complete_upload
finish_copy_lem id total s r found fresh =
    rw (found, get-put, eq_refl id, fresh) (refl, refl, rw (get-put, eq_refl id) refl)

-- Both times that the file of the final is made, it is made empty.
abbrev emptied : String → Row → Db → Db
emptied id r s = record {
  rows = Dict.put s.rows id r;
  files = Dict.put (Dict.put s.files id []) id [];
}

module _ (id : String) (ids : List String) (metadata : Dict String) (expires_at : Option ℕ)
    (allow_unfinished : Bool) (s : Db) where
  -- A concatenation of partials that are all complete, each with its file, and whose lengths sum to
  -- less than 2^63, makes a final upload, under an id that is not taken: its file is the partials'
  -- files in the order of the list, its offset is the length of that file, its declared length the
  -- sum of the partials' lengths, and it is completed.
  pub concatenate_uploads-contents :
      (ps : List Upload)
      → collect_partials s allow_unfinished ids ≡ ok (ps, false)
      → Dict.get s.rows id ≡ none
      → fits_integer (total_length ps) ≡ true
      → Present s id ps
      → let (r, s') = concatenate_uploads id ids metadata expires_at allow_unfinished s in
        (r ≡ ok (some (total_length ps)))
        × (read_file s' id ≡ ok (contents s ps))
        × ((u : Upload) × (get_upload s' id ≡ some u)
            × (u.offset ≡ length (contents s ps))
            × (u.upload_length ≡ some (total_length ps))
            × (u.completed ≡ true))
  unfolding concatenate_uploads create_final create_final_row copy_partials read_file get_upload
  concatenate_uploads-contents ps collected fresh fits present =
      let r = row_of ps metadata expires_at ids in
      let s1 = emptied id r s in
      let agree : AgreeBut id s s1 = λ j away. rw (get-put, away, get-put, away) refl in
      let (same, present') = contents-agree id s s1 ps agree present in
      let (copied, (rows, file, rest)) =
        copy_files_lem id ps 0 s1 [] (rw (get-put, eq_refl id) refl) present' in
      let s2 = (copy_files id ps 0 s1).1 in
      let (done, files, row) =
        finish_copy_lem id (0 + length (contents s1 ps)) s2 r (rw (rows, get-put, eq_refl id) refl)
          refl in
      rw (collected, fits, fresh, copied, done)
        (
          refl,
          rw (files, file, same) refl,
          (
            to_upload id (record r { offset = 0 + length (contents s1 ps); completed = true }),
            rw row refl,
            rw (zero-add, same) refl,
            refl,
            refl,
          ),
        )
