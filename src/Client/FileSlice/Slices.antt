-- ===== src/Client/FileSlice/Slices.antt =====
-- Slices read their range of the file, and the slices of ranges that cover a file are the file.
use native.Mathlib.Nat.{zero-add}
use resumable_upload.Prelude.{
  ap, ℕ, zero, suc, ◌+◌, ◌-◌, ◌≤◌, ◌<◌, ◌≡◌, refl, List, [], ◌∷◌, ◌++◌, Bytes, length, take, drop,
  take-length, length-take, arith, min, leb, Bool-cases, inl, inr,
}
use resumable_upload.Client.FileSlice.{FileSlice, readinto}
use resumable_upload.Client.Protocol.{split_boundaries}
use resumable_upload.Client.Protocol.Ranges.{Covers, split_boundaries-Covers}

-- The bytes of the range that an uploader is given.
abbrev pub slice : Bytes → ℕ × ℕ → Bytes
slice file (lo, hi) = take (hi - lo) (drop lo file)

abbrev pub slices : Bytes → List (ℕ × ℕ) → Bytes
slices file [] = []
slices file (r ∷ ranges) = slice file r ++ slices file ranges

suc_add : (m n : ℕ) → suc m + n ≡ suc (m + n)
suc_add m n = omega arith

take_none : (n : ℕ) → take {A = ℕ} n [] ≡ []
take_none zero = refl
take_none (suc n) = refl

drop_none : (n : ℕ) → drop {A = ℕ} n [] ≡ []
drop_none zero = refl
drop_none (suc n) = refl

pub take-take : (m n : ℕ) (xs : Bytes) → take m xs ++ take n (drop m xs) ≡ take (m + n) xs
take-take zero n xs = rw (zero-add n) refl
take-take (suc m) n [] = rw (take_none n, take_none (suc m + n)) refl
take-take (suc m) n (x ∷ xs) = rw (suc_add m n) (ap (λ (t : Bytes). x ∷ t) (take-take m n xs))

drop-drop : (m n : ℕ) (xs : Bytes) → drop n (drop m xs) ≡ drop (m + n) xs
drop-drop zero n xs = rw (zero-add n) refl
drop-drop (suc m) n [] = rw (drop_none n, drop_none (suc m + n)) refl
drop-drop (suc m) n (x ∷ xs) = rw (suc_add m n) (drop-drop m n xs)

Covers-le : (a b : ℕ) (ranges : List (ℕ × ℕ)) → Covers a ranges b → a ≤ b
Covers-le a b [] covers = rw covers (omega arith)
Covers-le a b ((s, e) ∷ ranges) (same, less, covers) =
    let later : e ≤ b = Covers-le e b ranges covers in rw (← same) (omega arith)

slices-Covers :
    (file : Bytes) (a b : ℕ) (ranges : List (ℕ × ℕ))
    → Covers a ranges b
    → slices file ranges ≡ take (b - a) (drop a file)
slices-Covers file a b [] covers =
    let none_left : b - a ≡ 0 = omega (arith, covers) in rw none_left refl
slices-Covers file a b ((s, e) ∷ ranges) (same, less, covers) =
    let within : e ≤ b = Covers-le e b ranges covers in
    let first : s ≤ e = omega arith in
    let at_e : s + (e - s) ≡ e = omega arith in
    let total : (e - s) + (b - e) ≡ b - s = omega arith in
    let onward : drop e file ≡ drop (e - s) (drop s file) =
      rw (drop-drop s (e - s) file, at_e) refl in
    rw (slices-Covers file e b ranges covers, ← same, onward)
      (rw (take-take (e - s) (b - e) (drop s file), total) refl)

-- The slices of a file that is not empty, cut for at least one part, are the file when they are put
-- one behind the other.
pub slices-split_boundaries :
    (file : Bytes) (parts : ℕ)
    → 0 < length file
    → 0 < parts
    → slices file (split_boundaries (length file) parts) ≡ file
slices-split_boundaries file parts some_bytes some_parts =
    let size = length file in
    let covers = (split_boundaries-Covers size parts some_bytes some_parts).0 in
    let whole : size - 0 ≡ size = omega arith in
    rw (slices-Covers file 0 size (split_boundaries size parts) covers, whole) (take-length file)

-- Where the descriptor stands at the place that the view counts.
abbrev pub IsPlaced : FileSlice → Type 0
IsPlaced s = (s.position ≡ s.lo + s.here) × (s.here ≤ s.size)

-- A read gives the next bytes of the slice, at most as many as the buffer holds and the slice has
-- left, and moves the view by as many.
pub readinto_lem :
    (n : ℕ) (s : FileSlice)
    → IsPlaced s
    → let (bytes, s') = readinto n s in
      (bytes ≡ take (min n (s.size - s.here)) (drop s.here (drop s.lo s.file)))
      × (s'.here ≡ s.here + length bytes)
      × IsPlaced s'
unfolding readinto
readinto_lem n s (placed, within) = elim (Bool-cases (leb s.size s.here)) [
  | inl done ↦
      let none_left : min n (s.size - s.here) ≡ 0 = ground arith in
      rw (done, none_left) (refl, omega arith, (placed, within))
  | inr left ↦
      let n' = min n (s.size - s.here) in
      let less : s.here < s.size = ground arith in
      let read : take n' (drop s.position s.file) ≡ take n' (drop s.here (drop s.lo s.file)) =
        rw (placed, drop-drop s.lo s.here s.file) refl in
      rw left
        (read, refl, (omega arith, omega (arith, length-take {0} n' (drop s.position s.file))))
]
