-- ===== src/Server/Final/Limits.antt =====
-- The size limit on the final of a concatenation, over the SQLite back end.
use resumable_upload.Prelude.{
  ℕ, ◌+◌, ◌≤◌, ◌<◌, ◌≡◌, String, Bool, true, false, Option, none, some, List, [], ◌∷◌, arith, ltb,
  Option-cases, inl, inr,
}
use resumable_upload.Prelude.Dict.{Dict}
use resumable_upload.Exec.{ok, Result-cases}
use resumable_upload.Storage.{Upload}
use resumable_upload.Server.{Server}
use resumable_upload.Server.Checked.{accept, Checked-cases}
use resumable_upload.Server.Final.{add_declared, declared_total, check_declared}
use resumable_upload.Sqlite.{Db, get_upload}
use resumable_upload.Sqlite.Concat.{
  collect_partials, length_of, create_final_row, copy_partials, total_length, create_final,
  concatenate_uploads,
}
use resumable_upload.Sqlite.Backend.{sqlite_storage}

-- The head of the list, where the checks on the partials pass.
collect_step :
    (s : Db) (allow : Bool) (pid : String) (pids : List String) (ps : List Upload) (open_one : Bool)
    → collect_partials s allow (pid ∷ pids) ≡ ok (ps, open_one)
    → (p : Upload) × (rest : List Upload) × (more : Bool) × (get_upload s pid ≡ some p)
      × (collect_partials s allow pids ≡ ok (rest, more))
      × (ps ≡ p ∷ rest)
unfolding collect_partials
collect_step s allow pid pids ps open_one e = elim (Option-cases (get_upload s pid)) [
  | inl missing ↦ absurd (ground arith)
  | inr (p, found) ↦ elim (Result-cases (collect_partials s allow pids)) [
    | inr (err, failed) ↦ absurd (ground arith)
    | inl ((rest, more), fine) ↦ (p, rest, more, found, fine, ground arith)
  ]
]

declared_total-total_length :
    (path : String → String) (v : Server) (s : Db) (allow : Bool) (ids : List String)
    (ps : List Upload) (open_one : Bool) (total : ℕ)
    → declared_total (sqlite_storage path) v s ids ≡ accept total
    → collect_partials s allow ids ≡ ok (ps, open_one)
    → total_length ps ≡ total
unfolding declared_total collect_partials
declared_total-total_length path v s allow [] ps open_one total summed collected = ground arith
declared_total-total_length path v s allow (pid ∷ pids) ps open_one total summed collected =
    let (p, rest, more, found, fine, split) = collect_step s allow pid pids ps open_one collected in
    elim (Option-cases p.upload_length) [
      | inl deferred ↦ cc (rw (found, add_declared, deferred) at summed)
      | inr (n, long) ↦ elim (Checked-cases (declared_total (sqlite_storage path) v s pids)) [
        | inr (r, refused) ↦ cc (rw (found, add_declared, long, refused) at summed)
        | inl (m, added) ↦
            let sum : n + m ≡ total = cc (rw (found, add_declared, long, added) at summed) in
            let later = declared_total-total_length path v s allow pids rest more m added fine in
            rw (split, length_of, long, later) sum
      ]
    ]

create_final-total_length :
    (id : String) (ids : List String) (metadata : Dict String) (expires_at : Option ℕ)
    (ps : List Upload) (open_one : Bool) (s : Db) (total : ℕ)
    → (create_final id ids metadata expires_at (ps, open_one) s).0 ≡ ok (some total)
    → total_length ps ≡ total
unfolding create_final
create_final-total_length id ids metadata expires_at ps true s total made =
    elim (Result-cases (create_final_row id none metadata expires_at ids s).0) [
      | inl (_, fine) ↦ absurd (ground (arith, rw fine at made))
      | inr (e, failed) ↦ absurd (ground (arith, rw failed at made))
    ]
create_final-total_length id ids metadata expires_at ps false s total made =
    let (r, s1) = create_final_row id (some (total_length ps)) metadata expires_at ids s in
    elim (Result-cases r) [
      | inr (e, failed) ↦ absurd (ground (arith, rw failed at made))
      | inl (_, fine) ↦ elim (Result-cases (copy_partials id ps s1).0) [
        | inr (e, failed) ↦ absurd (ground (arith, rw (fine, failed) at made))
        | inl (n, copied) ↦ cc (rw (fine, copied) at made)
      ]
    ]

-- Over the SQLite back end, on a server with a size limit, a final whose partials pass the check on
-- their declared lengths is never longer than the limit: either it is not made in the request, or
-- the length that `concatenate_uploads` returns is within it.
pub check_declared_bounds :
    (path : String → String) (v : Server) (s : Db) (id : String) (ids : List String)
    (metadata : Dict String) (expires_at : Option ℕ) (allow : Bool) (total : ℕ)
    → 0 < v.max_size
    → check_declared (sqlite_storage path) v s ids ≡ accept tt
    → (concatenate_uploads id ids metadata expires_at allow s).0 ≡ ok (some total)
    → total ≤ v.max_size
unfolding check_declared concatenate_uploads
check_declared_bounds path v s id ids metadata expires_at allow total limited checked made =
    let is_limited : ltb 0 v.max_size ≡ true = ground arith in
    elim (Checked-cases (declared_total (sqlite_storage path) v s ids)) [
      | inr (r, refused) ↦ absurd (ground (arith, rw (is_limited, refused) at checked))
      | inl (sum, summed) ↦
          let within : ltb v.max_size sum ≡ false =
            ground (arith, rw (is_limited, summed) at checked) in
          elim (Result-cases (collect_partials s allow ids)) [
            | inr (e, failed) ↦ absurd (ground (arith, rw failed at made))
            | inl ((ps, open_one), collected) ↦
                let same =
                  create_final-total_length id ids metadata expires_at ps open_one s total
                    (rw collected at made) in
                let summed_up =
                  declared_total-total_length path v s allow ids ps open_one sum summed collected in
                ground arith
          ]
    ]
