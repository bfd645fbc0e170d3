-- ===== src/Tests/Storing.antt =====
-- Two complete partials, their concatenation, and the cleanup.
use resumable_upload.Prelude.{
  split, is_empty, arith, ◌≤◌, ℕ, ◌≡◌, refl, String, true, false, none, some, List, [], ◌∷◌, length,
  join, pos, negsuc, if◌then◌else◌,
}
use resumable_upload.Prelude.Dict
use resumable_upload.Prelude.Dict.{Dict, NodupKeys}
use resumable_upload.Exec.{ok}
use resumable_upload.Storage.{Upload}
use resumable_upload.Storage.Contract.{IsLawful}
use resumable_upload.Server.{World, error_response}
use resumable_upload.Server.Checked.{accept}
use resumable_upload.Server.Final.{check_declared, declared_total}
use resumable_upload.Server.Final.Limits.{check_declared_bounds}
use resumable_upload.Server.Delete.{handle_delete}
use resumable_upload.Server.Delete.Protects.{handle_delete-protects}
use resumable_upload.Sqlite.{read_ids, fits_integer, Row, Db, get_upload, read_file, to_upload}
use resumable_upload.Sqlite.Backend.{sqlite_storage}
use resumable_upload.Sqlite.Lawful.{sqlite_storage-IsLawful}
use resumable_upload.Sqlite.Concat.{
  ready_partials, try_assemble_final, concatenate_uploads, collect_partials, total_length,
  find_pending_finals_for_partial, is_expired, cleanup_expired_uploads,
}
use resumable_upload.Sqlite.Assembled.{try_assemble_final-assembles}
use resumable_upload.Sqlite.Contents.{contents, concatenate_uploads-contents}
use resumable_upload.Sqlite.Pending.{is_in, find_pending_finals_for_partial_complete}
use resumable_upload.Sqlite.Cleanup.{cleanup_expired_uploads-exact}
use resumable_upload.Tests.Data.{v, S, in_world, file_path}

abbrev partial_row : ℕ → Row
partial_row n = record {
  upload_length = pos n;
  offset = n;
  metadata = [];
  completed = true;
  expires_at = some 10;
  is_partial = true;
  concat_partial_ids = none;
}

abbrev final_row : Row
final_row = record {
  upload_length = negsuc 0;
  offset = 0;
  metadata = [];
  completed = false;
  expires_at = none;
  is_partial = false;
  concat_partial_ids = some (join " " ("a" ∷ "b" ∷ []));
}

-- The final "f" waits for "a" and "b".
abbrev s : Db
s = record {
  rows = ("a", partial_row 2) ∷ ("b", partial_row 1) ∷ ("f", final_row) ∷ [];
  files = ("a", 1 ∷ 2 ∷ []) ∷ ("b", 3 ∷ []) ∷ ("f", []) ∷ [];
}

abbrev w : World Db
w = in_world s

abbrev ps : List Upload
ps = to_upload "a" (partial_row 2) ∷ to_upload "b" (partial_row 1) ∷ []

sqlite_storage-IsLawful_example : IsLawful (sqlite_storage file_path) fits_integer
sqlite_storage-IsLawful_example = sqlite_storage-IsLawful file_path

collected : collect_partials s true ("a" ∷ "b" ∷ []) ≡ ok (ps, false)
unfolding collect_partials get_upload Dict.get
collected = refl

new_id : Dict.get s.rows "c" ≡ none
unfolding Dict.get
new_id = refl

readable_a : read_file s "a" ≡ ok (1 ∷ 2 ∷ [])
unfolding read_file Dict.get
readable_a = refl

readable_b : read_file s "b" ≡ ok (3 ∷ [])
unfolding read_file Dict.get
readable_b = refl

concatenate_uploads-contents_example :
    let (r, s') = concatenate_uploads "c" ("a" ∷ "b" ∷ []) [] none true s in
    (r ≡ ok (some (total_length ps)))
    × (read_file s' "c" ≡ ok (contents s ps))
    × ((u : Upload) × (get_upload s' "c" ≡ some u)
        × (u.offset ≡ length (contents s ps))
        × (u.upload_length ≡ some (total_length ps))
        × (u.completed ≡ true))
concatenate_uploads-contents_example =
    concatenate_uploads-contents "c" ("a" ∷ "b" ∷ []) [] none true s ps collected new_id refl
      (refl, rw readable_a refl, (refl, rw readable_b refl, tt))

final_there : Dict.get s.rows "f" ≡ some final_row
unfolding Dict.get
final_there = refl

find_pending_finals_for_partial_complete_example :
    (finals : List String) × (find_pending_finals_for_partial s "b" ≡ ok finals)
    × (is_in "f" finals ≡ true)
find_pending_finals_for_partial_complete_example =
    find_pending_finals_for_partial_complete s "b" "f" final_row ("a" ∷ "b" ∷ []) final_there refl
      refl refl

keys_once : NodupKeys s.rows
unfolding Dict.get
keys_once = (refl, (refl, (refl, tt)))

cleanup_expired_uploads-exact_example :
    let s' = (cleanup_expired_uploads 11 s).1 in
    ((r : Row)
      → Dict.get s.rows "a" ≡ some r
      → (Dict.get s'.rows "a" ≡ (if is_expired 11 r then none else some r))
        × (Dict.get s'.files "a" ≡ (if is_expired 11 r then none else Dict.get s.files "a")))
    × (Dict.get s.rows "a" ≡ none
        → (Dict.get s'.rows "a" ≡ none) × (Dict.get s'.files "a" ≡ Dict.get s.files "a"))
cleanup_expired_uploads-exact_example = cleanup_expired_uploads-exact 11 s "a" keys_once

partial_there : S.get_upload s "a" ≡ some (to_upload "a" (partial_row 2))
unfolding get_upload Dict.get
partial_there = refl

handle_delete-protects_example :
    handle_delete S v "a" w
    ≡ (ok (error_response 409 "Partial upload is referenced by an unfinished concatenation"), w)
handle_delete-protects_example =
    handle_delete-protects file_path v w "a" "f" (to_upload "a" (partial_row 2)) final_row
      ("a" ∷ "b" ∷ []) refl refl partial_there refl final_there refl refl refl

waiting_row : Dict.get s.rows "f" ≡ some final_row
unfolding Dict.get
waiting_row = refl

two_ids : is_empty (read_ids final_row.concat_partial_ids) ≡ false
unfolding read_ids join split
two_ids = refl

both_ready : ready_partials s (read_ids final_row.concat_partial_ids) ≡ some ps
unfolding ready_partials get_upload read_ids join Dict.get split
both_ready = refl

try_assemble_final-assembles_example :
    let (result, s') = try_assemble_final "f" (some 100) s in
    (result ≡ ok (some (total_length ps)))
    × (read_file s' "f" ≡ ok (contents s ps))
    × ((u : Upload) × (get_upload s' "f" ≡ some u)
        × (u.offset ≡ length (contents s ps))
        × (u.upload_length ≡ some (total_length ps))
        × (u.completed ≡ true))
    × (try_assemble_final "f" (some 100) s' ≡ (ok none, s'))
try_assemble_final-assembles_example =
    try_assemble_final-assembles "f" (some 100) s final_row ps waiting_row refl two_ids both_ready
      refl refl (refl, rw readable_a refl, (refl, rw readable_b refl, tt))

within_limit : check_declared S v s ("a" ∷ "b" ∷ []) ≡ accept tt
unfolding check_declared declared_total get_upload Dict.get
within_limit = refl

made : (concatenate_uploads "c" ("a" ∷ "b" ∷ []) [] none true s).0 ≡ ok (some 3)
made =
    (concatenate_uploads-contents "c" ("a" ∷ "b" ∷ []) [] none true s ps collected new_id refl
      (refl, rw readable_a refl, (refl, rw readable_b refl, tt))).0

check_declared_bounds_example : 3 ≤ v.max_size
check_declared_bounds_example =
    check_declared_bounds file_path v s "c" ("a" ∷ "b" ∷ []) [] none true 3 (omega arith)
      within_limit made
