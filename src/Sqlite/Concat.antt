-- ===== src/Sqlite/Concat.antt =====
-- The concatenation and expiry methods of resumable_upload/storage/sqlite_storage.py.
use resumable_upload.Prelude.{
  ℕ, ◌+◌, String, ◌<>◌, Bool, true, false, not, ◌&&◌, ◌||◌, Option, none, some, List, [], ◌∷◌, ◌++◌,
  if◌then◌else◌, eqb, ltb, Bytes, length, is_empty, join, pos,
}
use resumable_upload.Prelude.Dict
use resumable_upload.Prelude.Dict.{Dict}
use resumable_upload.Exec.{value_error, Result, ok, raise, Exec, pure, lift, modify, ◌>>=◌, ◌>>◌}
use resumable_upload.Storage.{Upload}
use resumable_upload.Sqlite.{
  Row, Db, deferred_length_sentinel, stored_length, eqb_ℤ, get_upload, insert_row, create_file,
  update_row, update_offset, complete_upload, delete_upload, read_file, content,
}
use resumable_upload.Sqlite.Like.{like}

unfoldable pub create_final_row :
    String → Option ℕ → Dict String → Option ℕ → List String → Exec Db Unit
create_final_row id upload_length metadata expires_at partial_ids = do
  insert_row id (record {
    upload_length = stored_length upload_length;
    offset = 0;
    metadata = metadata;
    completed = false;
    expires_at = expires_at;
    is_partial = false;
    concat_partial_ids = some (join " " partial_ids);
  })
  create_file id

-- dst.write(bytes), at the end of the file that is being written
abbrev pub append_file : String → Bytes → Exec Db Unit
append_file id bytes =
    modify λ s. record s { files = Dict.put s.files id (content (Dict.get s.files id) ++ bytes) }

-- The loop over the partials; a file is copied as a whole, where the code copies by buffers.
unfoldable pub copy_files : String → List Upload → ℕ → Exec Db ℕ
unfolding read_file
copy_files final [] total s = (ok total, s)
copy_files final (p ∷ ps) total s = elim (read_file s p.upload_id) [
  | raise e ↦ (raise e, s)
  | ok bytes ↦ copy_files final ps (total + length bytes) (append_file final bytes s).1
]

-- What follows the copying.
abbrev pub finish_copy : String → ℕ → Exec Db ℕ
finish_copy final total = do update_offset final total; complete_upload final; pure total

unfoldable pub copy_partials : String → List Upload → Exec Db ℕ
unfolding copy_files update_offset complete_upload
copy_partials final partials = do
  create_file final
  total ← copy_files final partials 0
  finish_copy final total

-- p["offset"] == p["upload_length"], which is false while the length is None
abbrev pub is_full : Upload → Bool
is_full p = elim p.upload_length [ none ↦ false | some n ↦ eqb p.offset n ]

-- The checks on the partials, in order: the partials found, and whether one is incomplete.
unfoldable pub collect_partials : Db → Bool → List String → Result (List Upload × Bool)
unfolding get_upload
collect_partials s allow_unfinished [] = ok ([], false)
collect_partials s allow_unfinished (pid ∷ pids) =
    let rest = collect_partials s allow_unfinished pids in
    elim (get_upload s pid) [
      | none ↦ raise (value_error ("partial upload not found: " <> pid))
      | some p ↦
          if not p.is_partial
          then raise (value_error ("upload " <> pid <> " is not a partial upload"))
          else if not (is_full p) && not allow_unfinished
          then raise (value_error ("partial upload " <> pid <> " is not complete"))
          else elim rest [
            | raise e ↦ raise e
            | ok (ps, incomplete) ↦ ok (p ∷ ps, not (is_full p) || incomplete)
          ]
    ]

abbrev pub length_of : Upload → ℕ
length_of p = elim p.upload_length [ none ↦ 0 | some n ↦ n ]

-- sum(p["upload_length"] for p in partials), over partials that have a length
abbrev pub total_length : List Upload → ℕ
total_length [] = 0
total_length (p ∷ ps) = length_of p + total_length ps

unfoldable pub create_final :
    String → List String → Dict String → Option ℕ → List Upload × Bool → Exec Db (Option ℕ)
unfolding create_final_row copy_partials
create_final id partial_ids metadata expires_at (partials, true) = do
  create_final_row id none metadata expires_at partial_ids
  pure none
create_final id partial_ids metadata expires_at (partials, false) = do
  create_final_row id (some (total_length partials)) metadata expires_at partial_ids
  copy_partials id partials
  pure (some (total_length partials))

unfoldable pub concatenate_uploads :
    String → List String → Dict String → Option ℕ → Bool → Exec Db (Option ℕ)
unfolding collect_partials create_final
concatenate_uploads id partial_ids metadata expires_at allow_unfinished s =
    (lift (collect_partials s allow_unfinished partial_ids)
        >>= create_final id partial_ids metadata expires_at)
      s

-- The WHERE clause, for a row with the primary key `id`.
unfoldable pub is_pending_on : String → Row → Bool
unfolding like
is_pending_on partial_id r = elim r.concat_partial_ids [
  | none ↦ false
  | some text ↦ not r.completed && like ("% " <> partial_id <> " %") (" " <> text <> " ")
]

unfoldable pub select_ids : (Row → Bool) → Dict Row → List String
select_ids test [] = []
select_ids test ((id, r) ∷ rows) =
    let rest = select_ids test rows in if test r then id ∷ rest else rest

unfoldable pub find_pending_finals_for_partial : Db → String → Result (List String)
unfolding is_pending_on select_ids
find_pending_finals_for_partial s partial_id = ok (select_ids (is_pending_on partial_id) s.rows)

-- The partials of a final, if each is there and complete.
unfoldable pub ready_partials : Db → List String → Option (List Upload)
unfolding get_upload
ready_partials s [] = some []
ready_partials s (pid ∷ pids) =
    let rest = ready_partials s pids in
    elim (get_upload s pid) [
      | none ↦ none
      | some p ↦ if is_full p then (elim rest [ none ↦ none | some ps ↦ some (p ∷ ps) ]) else none
    ]

-- UPDATE ... WHERE completed = 0 AND upload_length IN (-1, total)
abbrev pub is_claimable : ℕ → Row → Bool
is_claimable total r =
    not r.completed
    && (eqb_ℤ r.upload_length deferred_length_sentinel || eqb_ℤ r.upload_length (pos total))

-- `except Exception`: the claim is rolled back, and the final stays pending.
abbrev pub or_revert : String → ℕ → Result ℕ → Exec Db (Option ℕ)
or_revert final total (ok _) = pure (some total)
or_revert final total (raise e) = do
  update_row final (λ r. not r.completed)
      (λ r. record r { upload_length = deferred_length_sentinel })
  pure none

abbrev pub copy_or_revert : String → ℕ → List Upload → Exec Db (Option ℕ)
copy_or_revert final total partials s =
    let (r, s') = copy_partials final partials s in or_revert final total r s'

unfoldable pub assemble : String → List Upload → Exec Db (Option ℕ)
unfolding copy_partials
assemble final partials = do
  let total = total_length partials
  claimed ← update_row final (is_claimable total) (λ r. record r { upload_length = pos total })
  if not (eqb claimed 1) then pure none else copy_or_revert final total partials

abbrev pub exceeds : ℕ → Option ℕ → Bool
exceeds total none = false
exceeds total (some max_total) = ltb max_total total

abbrev pub assemble_ready : String → Option ℕ → Option (List Upload) → Exec Db (Option ℕ)
assemble_ready id max_total none = pure none
assemble_ready id max_total (some partials) =
    if exceeds (total_length partials) max_total
    then delete_upload id >> pure none
    else assemble id partials

abbrev pub assemble_found : String → Option ℕ → Option Upload → Exec Db (Option ℕ)
assemble_found id max_total none s = (ok none, s)
assemble_found id max_total (some final) s =
    (if final.completed || is_empty final.concat_partial_ids
        then pure none
        else assemble_ready id max_total (ready_partials s final.concat_partial_ids))
      s

unfoldable pub try_assemble_final : String → Option ℕ → Exec Db (Option ℕ)
unfolding get_upload ready_partials assemble delete_upload
try_assemble_final id max_total s = assemble_found id max_total (get_upload s id) s

-- WHERE expires_at IS NOT NULL AND expires_at < ?
abbrev pub is_expired : ℕ → Row → Bool
is_expired now r = elim r.expires_at [ none ↦ false | some t ↦ ltb t now ]

unfoldable pub get_expired_uploads : Db → ℕ → List String
unfolding select_ids
get_expired_uploads s now = select_ids (is_expired now) s.rows

unfoldable pub delete_all : List String → Db → Db
unfolding delete_upload
delete_all [] s = s
delete_all (id ∷ ids) s = delete_all ids (delete_upload id s).1

unfoldable pub cleanup_expired_uploads : ℕ → Exec Db ℕ
unfolding get_expired_uploads delete_all
cleanup_expired_uploads now s =
    let expired_ids = get_expired_uploads s now in
    (ok (length expired_ids), delete_all expired_ids s)
