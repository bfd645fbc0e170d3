-- ===== src/Prelude/Text/Numbers.antt =====
-- `int` reads back what `str` writes.
use Prim.Native.Nat.{ℕ, zero, suc, ◌+◌, ◌*◌, ◌/◌, ◌%◌, ◌<◌, ◌≤◌}
use Prim.Native.Char.{code}
use Prim.Native.String.{String, ◌∷◌ as ◌⊳◌}
use mathlib.Core.Path.{◌≡◌, refl, ap, ◌∙◌}
use mathlib.Core.Logic.{inl, inr}
use mathlib.Core.Bool.{Bool, true, false, ◌&&◌}
use mathlib.Core.Option.{none, some}
use native.Mathlib.Omega.{arith}
use text.Mathlib.Text.{◌==◌}
use text.Mathlib.TextEquality.{eq_iff}
use resumable_upload.Prelude.Tests.{ltb, eqb, Bool-cases}
use resumable_upload.Prelude.Integers.{pos}
use resumable_upload.Prelude.Text.{
  is_space, is_digit, left_strip, right_strip, strip, digit_char, decimal, str, symbol, digit,
  int_digits, int_signed, int,
}

-- The ten digits: each is a digit to `int`, of its value.
symbol_digit : (d : ℕ) (b : Bool) → d < 10 → symbol (code (digit_char d)) b ≡ digit d
unfolding symbol digit_char is_digit
symbol_digit zero b h = refl
symbol_digit (suc zero) b h = refl
symbol_digit (suc (suc zero)) b h = refl
symbol_digit (suc (suc (suc zero))) b h = refl
symbol_digit (suc (suc (suc (suc zero)))) b h = refl
symbol_digit (suc (suc (suc (suc (suc zero))))) b h = refl
symbol_digit (suc (suc (suc (suc (suc (suc zero)))))) b h = refl
symbol_digit (suc (suc (suc (suc (suc (suc (suc zero))))))) b h = refl
symbol_digit (suc (suc (suc (suc (suc (suc (suc (suc zero)))))))) b h = refl
symbol_digit (suc (suc (suc (suc (suc (suc (suc (suc (suc zero))))))))) b h = refl
symbol_digit (suc (suc (suc (suc (suc (suc (suc (suc (suc (suc d)))))))))) b h =
    absurd (omega arith)

digit_code : (d : ℕ) → d < 10 → is_digit (code (digit_char d)) ≡ true
unfolding digit_char is_digit
digit_code zero h = refl
digit_code (suc zero) h = refl
digit_code (suc (suc zero)) h = refl
digit_code (suc (suc (suc zero))) h = refl
digit_code (suc (suc (suc (suc zero)))) h = refl
digit_code (suc (suc (suc (suc (suc zero))))) h = refl
digit_code (suc (suc (suc (suc (suc (suc zero)))))) h = refl
digit_code (suc (suc (suc (suc (suc (suc (suc zero))))))) h = refl
digit_code (suc (suc (suc (suc (suc (suc (suc (suc zero)))))))) h = refl
digit_code (suc (suc (suc (suc (suc (suc (suc (suc (suc zero))))))))) h = refl
digit_code (suc (suc (suc (suc (suc (suc (suc (suc (suc (suc d)))))))))) h = absurd (omega arith)

int_digits_front :
    (d n m : ℕ) (out : String) (b : Bool)
    → d < 10
    → n * 10 + d ≡ m
    → int_digits (digit_char d ⊳ out) n b ≡ int_digits out m true
unfolding int_digits
int_digits_front d n m out b h sum = rw (int_digits, symbol_digit d b h, sum) refl

int_digits-decimal :
    (fuel n : ℕ) (out : String) (b : Bool)
    → n < fuel
    → int_digits (decimal fuel n out) 0 b ≡ int_digits out n true
unfolding decimal
int_digits-decimal zero n out b h = absurd (omega arith)
int_digits-decimal (suc fuel) n out b h = elim (Bool-cases (ltb n 10)) [
  | inl small ↦
      let low : n < 10 = ground arith in
      let whole : n % 10 ≡ n = omega arith in
      rw (small, whole) (int_digits_front n 0 n out b low (omega arith))
  | inr large ↦
      let high : 10 ≤ n = ground arith in
      let sum : n / 10 * 10 + n % 10 ≡ n = omega arith in
      rw
        (
          large,
          int_digits-decimal fuel (n / 10) (digit_char (n % 10) ⊳ out) b (omega (arith, high)),
        )
        (int_digits_front (n % 10) (n / 10) n out true (omega arith) sum)
]

-- A text of digits.
unfoldable pub all_digits : String → Bool
all_digits String.[] = true
all_digits (c ⊳ s) = is_digit (code c) && all_digits s

all_digits-decimal :
    (fuel n : ℕ) (out : String) → all_digits out ≡ true → all_digits (decimal fuel n out) ≡ true
unfolding decimal all_digits
all_digits-decimal zero n out h = h
all_digits-decimal (suc fuel) n out h = elim (Bool-cases (ltb n 10)) [
  | inl small ↦ rw (small, digit_code (n % 10) (omega arith)) h
  | inr large ↦ rw large (
      all_digits-decimal fuel (n / 10) (digit_char (n % 10) ⊳ out)
        (rw (digit_code (n % 10) (omega arith)) h))
]

not_blank : (c : ℕ) → is_digit c ≡ true → is_space c ≡ false
unfolding is_digit is_space
not_blank c h = ground arith

both : (a b : Bool) → (a && b) ≡ true → (a ≡ true) × (b ≡ true)
both true b h = (refl, h)
both false b h = cc h

right_strip_digits : (s : String) → all_digits s ≡ true → right_strip s ≡ s
unfolding right_strip all_digits
right_strip_digits String.[] h = refl
right_strip_digits (c ⊳ s) h =
    let (first, rest) = both (is_digit (code c)) (all_digits s) h in
    rw (not_blank (code c) first, right_strip_digits s rest) refl

strip_digits : (s : String) → all_digits s ≡ true → strip s ≡ s
unfolding strip all_digits
strip_digits String.[] h = refl
strip_digits (c ⊳ s) h =
    let (first, rest) = both (is_digit (code c)) (all_digits s) h in
    rw (left_strip, not_blank (code c) first) (right_strip_digits (c ⊳ s) h)

unsigned : (c : ℕ) → is_digit c ≡ true → (eqb c b'-' ≡ false) × (eqb c b'+' ≡ false)
unfolding is_digit
unsigned c h = (ground arith, ground arith)

int_signed_digits :
    (s : String) (n : ℕ)
    → all_digits s ≡ true
    → int_digits s 0 false ≡ some n
    → int_signed s ≡ some (pos n)
unfolding int_signed all_digits int_digits
int_signed_digits String.[] n h e = cc e
int_signed_digits (c ⊳ s) n h e =
    let (first, _) = both (is_digit (code c)) (all_digits s) h in
    let (no_minus, no_plus) = unsigned (code c) first in rw (no_minus, no_plus, e) refl

ended : (n : ℕ) → int_digits "" n true ≡ some n
unfolding int_digits
ended n = refl

-- int(str(n)) is n.
pub int-str : (n : ℕ) → int (str n) ≡ some (pos n)
unfolding int str all_digits
int-str n =
    let digits = all_digits-decimal (suc n) n "" refl in
    rw (strip_digits (decimal (suc n) n "") digits) (
      int_signed_digits (decimal (suc n) n "") n digits
        (int_digits-decimal (suc n) n "" false (omega arith) ∙ ended n))

no_int : int "" ≡ none
unfolding int int_signed strip left_strip right_strip
no_int = refl

-- No number is written as the empty text.
pub str-not_empty : (n : ℕ) → (str n == "") ≡ false
str-not_empty n = elim (Bool-cases (str n == "")) [
  | inl e ↦ let same : str n ≡ "" = (eq_iff (str n) "").0 e in cc (int-str n, no_int, ap int same)
  | inr e ↦ e
]
