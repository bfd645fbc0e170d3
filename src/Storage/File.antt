-- ===== src/Storage/File.antt =====
-- `f.seek(offset); f.write(data)` on a file that is open for update.
use native.Mathlib.Nat.{zero-add, add-zero}
use resumable_upload.Prelude.{
  ℕ, zero, suc, ◌+◌, ◌≤◌, ◌≡◌, refl, ap, [], ◌∷◌, ◌++◌, append-nil, Bytes, length, take, drop,
  length-append, arith,
}

-- The bytes of `chunk` over those of `old` from `offset` on; a gap is filled with zeros.
overlay : Bytes → ℕ → Bytes → Bytes
overlay old zero chunk = chunk ++ drop (length chunk) old
overlay [] (suc n) chunk = 0 ∷ overlay [] n chunk
overlay (x ∷ xs) (suc n) chunk = x ∷ overlay xs n chunk

-- Writing nothing leaves the file as it is, also beyond its end.
unfoldable pub write_at : Bytes → ℕ → Bytes → Bytes
unfolding overlay
write_at old offset [] = old
write_at old offset (b ∷ bs) = overlay old offset (b ∷ bs)

suc_add : (m n : ℕ) → suc m + n ≡ suc (m + n)
suc_add m n = omega arith

take-append_all : (xs ys : Bytes) → take (length xs) (xs ++ ys) ≡ xs
take-append_all [] ys = refl
take-append_all (x ∷ xs) ys = ap (λ (t : Bytes). x ∷ t) (take-append_all xs ys)

take-overlay :
    (old : Bytes) (offset : ℕ) (chunk : Bytes)
    → offset ≤ length old
    → take (offset + length chunk) (overlay old offset chunk) ≡ take offset old ++ chunk
unfolding overlay
take-overlay old zero chunk h =
    rw (zero-add (length chunk)) (take-append_all chunk (drop (length chunk) old))
take-overlay [] (suc n) chunk h = absurd (omega arith)
take-overlay (x ∷ xs) (suc n) chunk h =
    rw (suc_add n (length chunk))
      (ap (λ (t : Bytes). x ∷ t) (take-overlay xs n chunk (omega arith)))

-- Where the file reaches the offset, the bytes before the offset stay and the chunk follows them.
pub take-write_at :
    (old : Bytes) (offset : ℕ) (chunk : Bytes)
    → offset ≤ length old
    → take (offset + length chunk) (write_at old offset chunk) ≡ take offset old ++ chunk
unfolding write_at
take-write_at old offset [] h = rw (add-zero offset, append-nil) refl
take-write_at old offset (b ∷ bs) h = take-overlay old offset (b ∷ bs) h

drop_none : (n : ℕ) → drop {A = ℕ} n [] ≡ []
drop_none zero = refl
drop_none (suc n) = refl

pub write_at_empty : (chunk : Bytes) → write_at [] 0 chunk ≡ chunk
unfolding write_at overlay
write_at_empty [] = refl
write_at_empty (b ∷ bs) = rw (drop_none (length (b ∷ bs)), append-nil) refl

length-overlay :
    (old : Bytes) (offset : ℕ) (chunk : Bytes)
    → offset + length chunk ≤ length (overlay old offset chunk)
unfolding overlay
length-overlay old zero chunk = omega (arith, length-append {0} chunk (drop (length chunk) old))
length-overlay [] (suc n) chunk = omega (arith, length-overlay [] n chunk)
length-overlay (x ∷ xs) (suc n) chunk = omega (arith, length-overlay xs n chunk)

pub length-write_at :
    (old : Bytes) (offset : ℕ) (chunk : Bytes)
    → offset ≤ length old
    → offset + length chunk ≤ length (write_at old offset chunk)
unfolding write_at
length-write_at old offset [] h = omega arith
length-write_at old offset (b ∷ bs) h = length-overlay old offset (b ∷ bs)
