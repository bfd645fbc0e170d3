-- ===== src/Metrics/Laws.antt =====
-- A counter reads the sum of its increments, and no other counter moves.
use resumable_upload.Prelude.{
  ℕ, ◌+◌, String, ◌==◌, eq_iff, eq_refl, ◌≡◌, refl, ◌&&◌, true, List, [], ◌∷◌, arith, if◌then◌else◌,
  Bool-cases, inl, inr, or_default,
}
use resumable_upload.Prelude.Dict
use resumable_upload.Prelude.Dict.{get-put}
use resumable_upload.Metrics.{
  Labels, Registry, same_labels, bucket_get, bucket_put, sort_labels, inc, value_of,
}

same_labels_refl : (l : Labels) → same_labels l l ≡ true
unfolding same_labels
same_labels_refl [] = refl
same_labels_refl ((a, b) ∷ l) = rw (eq_refl a, eq_refl b) (same_labels_refl l)

same_labels→eq : (l m : Labels) → same_labels l m ≡ true → l ≡ m
unfolding same_labels
same_labels→eq [] [] h = refl
same_labels→eq [] (y ∷ m) h = cc
same_labels→eq (x ∷ l) [] h = cc
same_labels→eq ((a, b) ∷ l) ((c, d) ∷ m) h =
    ground (arith, eq_iff a c, eq_iff b d, same_labels→eq l m)

bucket_get-bucket_put :
    (bucket : List (Labels × ℕ)) (k j : Labels) (n : ℕ)
    → bucket_get (bucket_put bucket k n) j ≡ (if same_labels k j then n else bucket_get bucket j)
unfolding bucket_get bucket_put
bucket_get-bucket_put [] k j n = refl
bucket_get-bucket_put ((l, m) ∷ bucket) k j n = elim (Bool-cases (same_labels l k)) [
  | inl e ↦ rw (e, same_labels→eq l k e) (ground arith)
  | inr e ↦ rw e (
      ground (
        arith,
        bucket_get-bucket_put bucket k j n,
        same_labels→eq l j,
        same_labels→eq k j,
        same_labels_refl j,
      ))
]

-- After `inc`, the counter named reads its old value and the increment; a counter of another name,
-- or with other labels, reads what it read.
pub value_of-inc :
    (r : Registry) (name other : String) (labels others : Labels) (value : ℕ)
    → value_of (inc name value labels r) other others ≡ (
        if name == other && same_labels (sort_labels labels) (sort_labels others)
        then value_of r other others + value
        else value_of r other others)
unfolding inc value_of
value_of-inc r name other labels others value = rw get-put (
    ground (
      arith,
      eq_iff name other,
      same_labels→eq (sort_labels labels) (sort_labels others),
      bucket_get-bucket_put (or_default (Dict.get r.counters name) []) (sort_labels labels)
          (sort_labels others)
          (bucket_get (or_default (Dict.get r.counters name) []) (sort_labels labels) + value),
    ))
