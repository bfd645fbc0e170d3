-- ===== src/Headers/Ids.antt =====
-- Which texts `validate_upload_id` accepts as the id of an upload, which becomes a file name.
use Prim.Native.Char.{code}
use Prim.Native.String.{◌∷◌ as ◌⊳◌}
use text.Mathlib.TextLemmas.{cons-append}
use resumable_upload.Prelude.{
  ℕ, zero, suc, ◌≡◌, refl, String, ◌<>◌, ◌==◌, eq_iff, Bool, true, ◌&&◌, ◌||◌, Option, some, eqb,
  arith, Option-cases, Bool-cases, inl, inr,
}
use resumable_upload.Headers.{is_hex, hex_run, dash, at_end, uuid_rest, validate_upload_id, ◌>>=◌}

-- A character of [0-9a-f], a dash, or a line feed: no separator of a path and no dot.
abbrev pub is_id_char : ℕ → Bool
is_id_char c = is_hex c || eqb c b'-' || eqb c b'\n'

unfoldable pub is_id_text : String → Bool
is_id_text String.[] = true
is_id_text (c ⊳ s) = is_id_char (code c) && is_id_text s

-- A matcher that takes characters of an id off the front of a text.
abbrev Takes : (String → Option String) → Type 0
Takes f = (s r : String) → f s ≡ some r → is_id_text r ≡ true → is_id_text s ≡ true

-- A matcher that does not look at what it leaves.
abbrev Leaves : (String → Option String) → Type 0
Leaves f = (s t r : String) → f s ≡ some r → f (s <> t) ≡ some (r <> t)

bind-Takes : (f g : String → Option String) → Takes f → Takes g → Takes (λ s. f s >>= g)
bind-Takes f g first then_g s r e ids = elim (Option-cases (f s)) [
  | inl n ↦ cc (rw n at e)
  | inr (m, h) ↦ first s m h (then_g m r (rw h at e) ids)
]

bind-Leaves : (f g : String → Option String) → Leaves f → Leaves g → Leaves (λ s. f s >>= g)
bind-Leaves f g first then_g s t r e = elim (Option-cases (f s)) [
  | inl n ↦ cc (rw n at e)
  | inr (m, h) ↦ rw (first s t m h) (then_g m t r (rw h at e))
]

hex_run-Takes : (n : ℕ) → Takes (hex_run n)
unfolding hex_run is_id_text
hex_run-Takes zero s r e ids = let same : s ≡ r = cc e in rw same ids
hex_run-Takes (suc n) String.[] r e ids = ground arith
hex_run-Takes (suc n) (c ⊳ s) r e ids = elim (Bool-cases (is_hex (code c))) [
  | inl hex ↦
      let left : hex_run n s ≡ some r = rw hex at e in rw (hex, hex_run-Takes n s r left ids) refl
  | inr other ↦ ground (arith, e)
]

dash-Takes : Takes dash
unfolding dash is_id_text
dash-Takes String.[] r e ids = ground arith
dash-Takes (c ⊳ s) r e ids = ground (arith, e)

hex_run-Leaves : (n : ℕ) → Leaves (hex_run n)
unfolding hex_run
hex_run-Leaves zero s t r e = let same : s ≡ r = cc e in rw same refl
hex_run-Leaves (suc n) String.[] t r e = ground arith
hex_run-Leaves (suc n) (c ⊳ s) t r e = elim (Bool-cases (is_hex (code c))) [
  | inl hex ↦ rw (cons-append c s t, hex) (hex_run-Leaves n s t r (rw hex at e))
  | inr other ↦ cc (rw other at e)
]

dash-Leaves : Leaves dash
unfolding dash
dash-Leaves String.[] t r e = ground arith
dash-Leaves (c ⊳ s) t r e = elim (Bool-cases (eqb (code c) b'-')) [
  | inl is_dash ↦
      let same : s ≡ r = cc (rw is_dash at e) in rw (cons-append c s t, is_dash, same) refl
  | inr other ↦ cc (rw other at e)
]

uuid_rest-Takes : Takes uuid_rest
unfolding uuid_rest
uuid_rest-Takes = bind-Takes (hex_run 8) _ (hex_run-Takes 8) (
    bind-Takes dash _ dash-Takes (
      bind-Takes (hex_run 4) _ (hex_run-Takes 4) (
        bind-Takes dash _ dash-Takes (
          bind-Takes (hex_run 4) _ (hex_run-Takes 4) (
            bind-Takes dash _ dash-Takes (
              bind-Takes (hex_run 4) _ (hex_run-Takes 4)
                (bind-Takes dash (hex_run 12) dash-Takes (hex_run-Takes 12))))))))

uuid_rest-Leaves : Leaves uuid_rest
unfolding uuid_rest
uuid_rest-Leaves = bind-Leaves (hex_run 8) _ (hex_run-Leaves 8) (
    bind-Leaves dash _ dash-Leaves (
      bind-Leaves (hex_run 4) _ (hex_run-Leaves 4) (
        bind-Leaves dash _ dash-Leaves (
          bind-Leaves (hex_run 4) _ (hex_run-Leaves 4) (
            bind-Leaves dash _ dash-Leaves (
              bind-Leaves (hex_run 4) _ (hex_run-Leaves 4)
                (bind-Leaves dash (hex_run 12) dash-Leaves (hex_run-Leaves 12))))))))

at_end-is_id_text : (r : String) → at_end (some r) ≡ true → is_id_text r ≡ true
unfolding is_id_text is_hex
at_end-is_id_text r e = elim (Bool-cases (r == "")) [
  | inl empty ↦ rw ((eq_iff r "").0 empty) refl
  | inr other ↦ let feed : (r == "\n") ≡ true = rw other at e in rw ((eq_iff r "\n").0 feed) refl
]

-- An accepted id consists of hexadecimal digits, dashes and line feeds: it holds no separator of a
-- path and no dot, so the file of an upload stays in the upload directory.
pub validate_upload_id-is_id_text : (s : String) → validate_upload_id s ≡ true → is_id_text s ≡ true
unfolding validate_upload_id
validate_upload_id-is_id_text s valid = elim (Option-cases (uuid_rest s)) [
  | inl none_left ↦ cc (rw none_left at valid)
  | inr (r, e) ↦ uuid_rest-Takes s r e (at_end-is_id_text r (rw e at valid))
]

-- An id that is a whole UUID is accepted with a line feed behind it too.
pub validate_upload_id-line_feed :
    (s : String) → uuid_rest s ≡ some "" → validate_upload_id (s <> "\n") ≡ true
unfolding validate_upload_id
validate_upload_id-line_feed s whole = rw (uuid_rest-Leaves s "\n" "" whole) refl
