-- ===== src/Client/Protocol/Ranges.antt =====
-- The ranges of `split_boundaries` follow each other and cover the file.
use native.Mathlib.Nat.{suc-mul, mul_comm, div-mul-le_self}
use resumable_upload.Prelude.{
  ℕ, zero, suc, ◌+◌, ◌*◌, ◌/◌, ◌≤◌, ◌<◌, ◌≡◌, refl, Bool, true, false, ◌||◌, List, [], ◌∷◌,
  if◌then◌else◌, eqb, ltb, length, arith, Bool-cases, inl, inr,
}
use resumable_upload.Client.Protocol.{split_from, split_boundaries}

-- Ranges that are not empty and lead from one position to another without a gap or an overlap.
abbrev pub Covers : ℕ → List (ℕ × ℕ) → ℕ → Type 0
Covers a [] b = a ≡ b
Covers a ((s, e) ∷ ranges) b = (s ≡ a) × (s < e) × Covers e ranges b

cover_if :
    (a e b : ℕ) (ranges : List (ℕ × ℕ))
    → a ≤ e
    → Covers e ranges b
    → Covers a (if ltb a e then (a, e) ∷ ranges else ranges) b
cover_if a e b ranges le covers = elim (Bool-cases (ltb a e)) [
  | inl less ↦ rw less (refl, ground arith, covers)
  | inr same ↦ let equal : e ≡ a = ground arith in rw same (rw (← equal) covers)
]

-- A part that is not the last ends `base` further on.
split_from_next :
    (size base remaining start : ℕ)
    → split_from size base (suc (suc remaining)) start ≡ (
        if ltb start (start + base)
        then (start, start + base) ∷ split_from size base (suc remaining) (start + base)
        else split_from size base (suc remaining) (start + base))
unfolding split_from
split_from_next size base remaining start =
    let not_last : eqb (suc remaining) 0 ≡ false = ground arith in rw not_last refl

split_from-Covers :
    (size base remaining start : ℕ)
    → start + suc remaining * base ≤ size
    → Covers start (split_from size base (suc remaining) start) size
unfolding split_from
split_from-Covers size base zero start fits =
    cover_if start size size [] (omega (arith, suc-mul 0 base)) refl
split_from-Covers size base (suc remaining) start fits =
    rw (split_from_next size base remaining start) (
      cover_if start (start + base) size (split_from size base (suc remaining) (start + base))
        (omega arith)
        (split_from-Covers size base remaining (start + base)
          (omega (arith, suc-mul (suc remaining) base))))

length_if :
    {A : Type 0} (b : Bool) (x : A) (l : List A) (n : ℕ)
    → length l ≤ n
    → length (if b then x ∷ l else l) ≤ suc n
length_if true x l n h = omega arith
length_if false x l n h = omega arith

length-split_from :
    (size base remaining start : ℕ) → length (split_from size base remaining start) ≤ remaining
unfolding split_from
length-split_from size base zero start = omega arith
length-split_from size base (suc remaining) start =
    let end = if eqb remaining 0 then size else start + base in
    length_if (ltb start end) (start, end) (split_from size base remaining end) remaining
      (length-split_from size base remaining end)

-- For a file that is not empty and at least one part, the ranges lead from 0 to the file's size,
-- each starts where the one before it ends, none is empty, and there are at most as many as parts.
pub split_boundaries-Covers :
    (size parts : ℕ)
    → 0 < size
    → 0 < parts
    → Covers 0 (split_boundaries size parts) size × (length (split_boundaries size parts) ≤ parts)
unfolding split_boundaries
split_boundaries-Covers size zero some_bytes some_parts = absurd (omega arith)
split_boundaries-Covers size (suc parts) some_bytes some_parts =
    let asked : (eqb size 0 || eqb (suc parts) 0) ≡ false = ground arith in
    rw asked (
      split_from-Covers size (size / suc parts) parts 0 (
          omega (arith, div-mul-le_self size (suc parts), mul_comm (suc parts) (size / suc parts))),
      length-split_from size (size / suc parts) (suc parts) 0,
    )
