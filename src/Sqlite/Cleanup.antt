-- ===== src/Sqlite/Cleanup.antt =====
-- `cleanup_expired_uploads` removes the expired uploads, and only them.
use resumable_upload.Prelude.{
  ℕ, ◌≡◌, refl, String, ◌==◌, eq_iff, Bool, true, false, ◌||◌, Option, none, some, List, [], ◌∷◌,
  if◌then◌else◌, arith, Bool-cases, inl, inr,
}
use resumable_upload.Prelude.Dict
use resumable_upload.Prelude.Dict.{Dict, get-remove, NodupKeys}
use resumable_upload.Sqlite.{Row, Db, delete_upload}
use resumable_upload.Sqlite.Concat.{
  is_expired, select_ids, get_expired_uploads, delete_all, cleanup_expired_uploads,
}
use resumable_upload.Sqlite.Pending.{is_in}

either_removes :
    {A : Type 0} (a b : Bool) (x : Option A)
    → (if b then none else (if a then none else x)) ≡ (if a || b then none else x)
either_removes a true x = ground arith
either_removes a false x = ground arith

delete_all_lem :
    (ids : List String) (s : Db) (j : String)
    → (Dict.get (delete_all ids s).rows j ≡ (if is_in j ids then none else Dict.get s.rows j))
      × (Dict.get (delete_all ids s).files j ≡ (if is_in j ids then none else Dict.get s.files j))
unfolding delete_all delete_upload
delete_all_lem [] s j = (refl, refl)
delete_all_lem (id ∷ ids) s j =
    let (rows, files) = delete_all_lem ids (delete_upload id s).1 j in
    (
      rw (rows, get-remove) (either_removes (id == j) (is_in j ids) (Dict.get s.rows j)),
      rw (files, get-remove) (either_removes (id == j) (is_in j ids) (Dict.get s.files j)),
    )

-- In a table without repeated keys, an id is selected where its row passes the test.
select_ids-none :
    (test : Row → Bool) (rows : Dict Row) (j : String)
    → Dict.get rows j ≡ none
    → is_in j (select_ids test rows) ≡ false
unfolding select_ids Dict.get
select_ids-none test [] j missing = refl
select_ids-none test ((id, r) ∷ rows) j missing = elim (Bool-cases (id == j)) [
  | inl same ↦ cc (rw same at missing)
  | inr other ↦
      let later = select_ids-none test rows j (rw other at missing) in
      elim (Bool-cases (test r)) [
        | inl chosen ↦ rw (chosen, other) later
        | inr skipped ↦ rw skipped later
      ]
]

select_ids_lem :
    (test : Row → Bool) (rows : Dict Row) (j : String) (r : Row)
    → NodupKeys rows
    → Dict.get rows j ≡ some r
    → is_in j (select_ids test rows) ≡ test r
unfolding select_ids Dict.get
select_ids_lem test [] j r nodup found = ground arith
select_ids_lem test ((id, q) ∷ rows) j r (once, nodup) found = elim (Bool-cases (id == j)) [
  | inl same ↦
      let is_r : q ≡ r = cc (rw same at found) in
      let missing : is_in j (select_ids test rows) ≡ false =
        select_ids-none test rows j (rw ((eq_iff id j).0 same) at once) in
      rw (← is_r) (elim (Bool-cases (test q)) [
        | inl chosen ↦ rw (chosen, same) refl
        | inr skipped ↦ rw (skipped, missing) refl
      ])
  | inr other ↦
      let later = select_ids_lem test rows j r nodup (rw other at found) in
      elim (Bool-cases (test q)) [
        | inl chosen ↦ rw (chosen, other) later
        | inr skipped ↦ rw skipped later
      ]
]

-- The cleanup at a time removes the row and the file of an upload that has expired before that
-- time, keeps those of any other upload, and makes no row. The table holds each id once, which the
-- primary key sees to.
pub cleanup_expired_uploads-exact :
    (now : ℕ) (s : Db) (j : String)
    → NodupKeys s.rows
    → let s' = (cleanup_expired_uploads now s).1 in
      ((r : Row)
        → Dict.get s.rows j ≡ some r
        → (Dict.get s'.rows j ≡ (if is_expired now r then none else some r))
          × (Dict.get s'.files j ≡ (if is_expired now r then none else Dict.get s.files j)))
      × (Dict.get s.rows j ≡ none
          → (Dict.get s'.rows j ≡ none) × (Dict.get s'.files j ≡ Dict.get s.files j))
unfolding cleanup_expired_uploads get_expired_uploads
cleanup_expired_uploads-exact now s j nodup =
    let (rows, files) = delete_all_lem (select_ids (is_expired now) s.rows) s j in
    (
      λ r found.
          let same = select_ids_lem (is_expired now) s.rows j r nodup found in
          (rw (rows, same, found) refl, rw (files, same) refl),
      λ missing.
          let none_selected = select_ids-none (is_expired now) s.rows j missing in
          (rw (rows, none_selected) missing, rw (files, none_selected) refl),
    )
