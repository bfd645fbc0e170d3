-- ===== src/Sqlite/Assembled.antt =====
-- The assembly of a final whose partials are all complete.
use native.Mathlib.Nat.{zero-add}
use resumable_upload.Prelude.{
  ℕ, ◌+◌, ◌≡◌, refl, String, eq_refl, true, false, ◌||◌, Option, none, some, List, [], length, pos,
  is_empty,
}
use resumable_upload.Prelude.Dict
use resumable_upload.Prelude.Dict.{Dict, get-put}
use resumable_upload.Exec.{ok}
use resumable_upload.Storage.{Upload}
use resumable_upload.Sqlite.{Row, Db, get_upload, read_file, read_ids, to_upload}
use resumable_upload.Sqlite.Concat.{
  copy_files, copy_partials, finish_copy, total_length, ready_partials, is_claimable, exceeds,
  assemble, try_assemble_final,
}
use resumable_upload.Sqlite.Contents.{
  contents, Present, AgreeBut, contents-agree, copy_files_lem, finish_copy_lem,
}

module _ (id : String) (max_total : Option ℕ) (s : Db) where
  -- A final that is completed, or that is no final, is not assembled: nothing changes.
  try_assemble_final-settled :
      (u : Upload)
      → get_upload s id ≡ some u
      → (u.completed || is_empty u.concat_partial_ids) ≡ true
      → try_assemble_final id max_total s ≡ (ok none, s)
  unfolding try_assemble_final
  try_assemble_final-settled u found settled = rw (found, settled) refl

module _ (id : String) (max_total : Option ℕ) (s : Db) where
  -- A pending final whose partials are all complete, each with its file, and within the limit, is
  -- assembled: its file becomes the partials' files in the order of the list, its offset the length
  -- of that file, its declared length the sum of the partials' lengths, and it is completed, so
  -- that another attempt changes nothing. The row may be claimed while its length is deferred or
  -- already that sum.
  pub try_assemble_final-assembles :
      (r : Row) (ps : List Upload)
      → Dict.get s.rows id ≡ some r
      → r.completed ≡ false
      → is_empty (read_ids r.concat_partial_ids) ≡ false
      → ready_partials s (read_ids r.concat_partial_ids) ≡ some ps
      → exceeds (total_length ps) max_total ≡ false
      → is_claimable (total_length ps) r ≡ true
      → Present s id ps
      → let (result, s') = try_assemble_final id max_total s in
        (result ≡ ok (some (total_length ps)))
        × (read_file s' id ≡ ok (contents s ps))
        × ((u : Upload) × (get_upload s' id ≡ some u)
            × (u.offset ≡ length (contents s ps))
            × (u.upload_length ≡ some (total_length ps))
            × (u.completed ≡ true))
        × (try_assemble_final id max_total s' ≡ (ok none, s'))
  unfolding try_assemble_final assemble copy_partials read_file get_upload
  try_assemble_final-assembles r ps found pending listed ready within claimable present =
      let claimed : Row = record r { upload_length = pos (total_length ps) } in
      let s1 : Db = record { rows = Dict.put s.rows id claimed; files = Dict.put s.files id [] } in
      let agree : AgreeBut id s s1 = λ j away. rw (get-put, away) refl in
      let (same, present') = contents-agree id s s1 ps agree present in
      let (copied, (rows, file, rest)) =
        copy_files_lem id ps 0 s1 [] (rw (get-put, eq_refl id) refl) present' in
      let s2 = (copy_files id ps 0 s1).1 in
      let (done, files, row) =
        finish_copy_lem id (0 + length (contents s1 ps)) s2 claimed
          (rw (rows, get-put, eq_refl id) refl) pending in
      let u : Upload =
        to_upload id (record claimed { offset = 0 + length (contents s1 ps); completed = true }) in
      rw (found, pending, listed, ready, within, found, claimable, copied, done)
        (
          refl,
          rw (files, file, same) refl,
          (u, rw row refl, rw (zero-add, same) refl, refl, refl),
          try_assemble_final-settled id max_total
              (finish_copy id (0 + length (contents s1 ps)) s2).1 u (rw row refl) refl,
        )
