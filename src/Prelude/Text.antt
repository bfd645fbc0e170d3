-- ===== src/Prelude/Text.antt =====
-- What the program uses of Python's `str` methods and of `int` and `str` on numbers. Texts are
-- native strings. Case and blanks are those of the characters that an HTTP header can hold
-- (ASCII letters; the blanks below U+0100). `int` has no limit on the number of digits.
pub mod Numbers
use Prim.Native.Nat.{ℕ, zero, suc, ◌+◌, ◌-◌, ◌*◌, ◌/◌, ◌%◌}
use Prim.Native.Char.{Char, code}
use Prim.Native.String.{String, ◌∷◌ as ◌⊳◌, ◌++◌ as ◌<>◌, char_at}
use mathlib.Core.Bool.{Bool, true, false, ◌&&◌, ◌||◌}
use mathlib.Core.Option.{Option, none, some}
use mathlib.Core.List.{List, [], ◌∷◌}
use text.Mathlib.Text.{◌==◌, starts_with}
use resumable_upload.Prelude.Tests.{ltb, leb, eqb, if◌then◌else◌}
use resumable_upload.Prelude.Integers.{ℤ, pos, negsuc}

unfoldable pub is_space : ℕ → Bool
is_space c = leb 9 c && leb c 13 || leb 28 c && leb c 32 || eqb c 133 || eqb c 160

unfoldable pub is_digit : ℕ → Bool
is_digit c = leb b'0' c && leb c b'9'

lower_char : Char → Char
lower_char c =
    if leb b'A' (code c) && leb (code c) b'Z'
    then char_at "abcdefghijklmnopqrstuvwxyz" (code c - b'A')
    else c

upper_char : Char → Char
upper_char c =
    if leb b'a' (code c) && leb (code c) b'z'
    then char_at "ABCDEFGHIJKLMNOPQRSTUVWXYZ" (code c - b'a')
    else c

-- s.lower()
unfoldable pub lower : String → String
unfolding lower_char
lower String.[] = ""
lower (c ⊳ s) = lower_char c ⊳ lower s

-- s.upper()
unfoldable pub upper : String → String
unfolding upper_char
upper String.[] = ""
upper (c ⊳ s) = upper_char c ⊳ upper s

unfoldable pub left_strip : String → String
left_strip String.[] = ""
left_strip (c ⊳ s) = let rest = left_strip s in if is_space (code c) then rest else c ⊳ s

unfoldable pub right_strip : String → String
right_strip String.[] = ""
right_strip (c ⊳ s) =
    let rest = right_strip s in if is_space (code c) && rest == "" then "" else c ⊳ rest

-- s.strip()
unfoldable pub strip : String → String
unfolding left_strip right_strip is_space
strip s = right_strip (left_strip s)

-- s.isascii()
unfoldable pub is_ascii : String → Bool
is_ascii String.[] = true
is_ascii (c ⊳ s) = ltb (code c) 128 && is_ascii s

-- len(s), in characters
abbrev pub text_length : String → ℕ
text_length String.[] = 0
text_length (c ⊳ s) = suc (text_length s)

-- s[n:]
abbrev pub text_drop : ℕ → String → String
text_drop zero s = s
text_drop (suc n) String.[] = ""
text_drop (suc n) (c ⊳ s) = text_drop n s

abbrev pub extend_first : Char → List String → List String
extend_first c [] = (c ⊳ "") ∷ []
extend_first c (p ∷ ps) = (c ⊳ p) ∷ ps

-- s.split(sep) at a separator of one character
unfoldable pub split : ℕ → String → List String
split sep String.[] = "" ∷ []
split sep (c ⊳ s) =
    let parts = split sep s in if eqb (code c) sep then "" ∷ parts else extend_first c parts

abbrev pub extend_left : Char → Option (String × String) → Option (String × String)
extend_left c none = none
extend_left c (some (a, b)) = some (c ⊳ a, b)

-- s.split(sep, 1), where it has two parts; `none` where the separator is missing
unfoldable pub split_once : ℕ → String → Option (String × String)
split_once sep String.[] = none
split_once sep (c ⊳ s) =
    let rest = split_once sep s in if eqb (code c) sep then some ("", s) else extend_left c rest

drop_empty : List String → List String
drop_empty [] = []
drop_empty (p ∷ ps) = let rest = drop_empty ps in if p == "" then rest else p ∷ rest

blanks_as_spaces : String → String
blanks_as_spaces String.[] = ""
blanks_as_spaces (c ⊳ s) = (if is_space (code c) then char_at " " 0 else c) ⊳ blanks_as_spaces s

-- s.split()
unfoldable pub words : String → List String
unfolding drop_empty blanks_as_spaces split is_space
words s = drop_empty (split b' ' (blanks_as_spaces s))

-- sep.join(parts)
unfoldable pub join : String → List String → String
join sep [] = ""
join sep (p ∷ []) = p
join sep (p ∷ q ∷ ps) = p <> sep <> join sep (q ∷ ps)

-- t in s
unfoldable pub contains_text : String → String → Bool
contains_text t String.[] = t == ""
contains_text t (c ⊳ s) = starts_with (c ⊳ s) t || contains_text t s

digit_char : ℕ → Char
digit_char d = char_at "0123456789" d

-- The digits in front of `out`; `suc n` rounds are enough for `n`.
unfoldable pub decimal : ℕ → ℕ → String → String
unfolding digit_char
decimal zero n out = out
decimal (suc fuel) n out =
    let out' = digit_char (n % 10) ⊳ out in
    let rest = decimal fuel (n / 10) out' in if ltb n 10 then out' else rest

-- str(n)
unfoldable pub str : ℕ → String
unfolding decimal
str n = decimal (suc n) n ""

-- What a character is to `int`: a digit, an underscore between digits, or an error.
pub data Symbol : Type 0 where
  digit : ℕ → Symbol
  underscore bad : Symbol

unfoldable pub symbol : ℕ → Bool → Symbol
unfolding is_digit
symbol c after_digit =
    if is_digit c then digit (c - b'0') else if eqb c b'_' && after_digit then underscore else bad

unfoldable pub int_digits : String → ℕ → Bool → Option ℕ
unfolding symbol
int_digits String.[] n after_digit = if after_digit then some n else none
int_digits (c ⊳ s) n after_digit = elim (symbol (code c) after_digit) [
  | digit d ↦ int_digits s (n * 10 + d) true
  | underscore ↦ int_digits s n false
  | bad ↦ none
]

abbrev negate : ℕ → ℤ
negate zero = pos 0
negate (suc n) = negsuc n

abbrev signed : Bool → Option ℕ → Option ℤ
signed _ none = none
signed true (some n) = some (negate n)
signed false (some n) = some (pos n)

unfoldable pub int_signed : String → Option ℤ
unfolding int_digits
int_signed String.[] = none
int_signed (c ⊳ s) =
    if eqb (code c) b'-'
    then signed true (int_digits s 0 false)
    else if eqb (code c) b'+'
    then signed false (int_digits s 0 false)
    else signed false (int_digits (c ⊳ s) 0 false)

-- int(s); `none` is a ValueError
unfoldable pub int : String → Option ℤ
unfolding strip int_signed
int s = int_signed (strip s)
