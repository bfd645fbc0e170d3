-- ===== src/Headers/Pieces.antt =====
-- Splitting and stripping texts that were put together from plain pieces.
use Prim.Native.Char.{Char, code}
use Prim.Native.String.{◌∷◌ as ◌⊳◌, char_at}
use text.Mathlib.TextLemmas.{nil-append, cons-append, append-nil, cons-ne-nil}
use resumable_upload.Prelude.{
  ℕ, ◌≡◌, ◌≢◌, refl, String, ◌<>◌, ◌==◌, eq_iff, Bool, true, false, not, ◌&&◌, none, some, List, [],
  ◌∷◌, eqb, arith, Bool-cases, inl, inr, if◌then◌else◌, is_space, strip, left_strip, right_strip,
  split, split_once, join,
}

-- No blank and no comma.
abbrev pub is_plain_char : ℕ → Bool
is_plain_char c = not (is_space c) && not (eqb c b',')

unfoldable pub is_plain_text : String → Bool
is_plain_text String.[] = true
is_plain_text (c ⊳ s) = is_plain_char (code c) && is_plain_text s

unfoldable pub has_no : ℕ → String → Bool
has_no sep String.[] = true
has_no sep (c ⊳ s) = not (eqb (code c) sep) && has_no sep s

split_whole : (sep : ℕ) (p : String) → has_no sep p ≡ true → split sep p ≡ p ∷ []
unfolding split has_no
split_whole sep String.[] h = refl
split_whole sep (c ⊳ p) h = elim (Bool-cases (eqb (code c) sep)) [
  | inl e ↦ cc (rw e at h)
  | inr e ↦ rw (e, split_whole sep p (rw e at h)) refl
]

split_front :
    (sep : ℕ) (p t : String) (c : Char)
    → has_no sep p ≡ true
    → eqb (code c) sep ≡ true
    → split sep (p <> (c ⊳ t)) ≡ p ∷ split sep t
unfolding split has_no
split_front sep String.[] t c h is_sep = rw (nil-append (c ⊳ t), split, is_sep) refl
split_front sep (d ⊳ p) t c h is_sep = elim (Bool-cases (eqb (code d) sep)) [
  | inl e ↦ cc (rw e at h)
  | inr e ↦ rw (cons-append d p (c ⊳ t), split, e, split_front sep p t c (rw e at h) is_sep) refl
]

abbrev comma : Char
comma = char_at "," 0

abbrev pub AllPieces : List String → Type 0
AllPieces [] = Unit
AllPieces (p ∷ ps) = (has_no b',' p ≡ true) × AllPieces ps

-- join and split are inverse on pieces without a comma.
pub split-join :
    (p : String) (ps : List String) → AllPieces (p ∷ ps) → split b',' (join "," (p ∷ ps)) ≡ p ∷ ps
unfolding join
split-join p [] (h, _) = split_whole b',' p h
split-join p (q ∷ ps) (h, more) =
    rw
      (
        cons-append comma "" (join "," (q ∷ ps)),
        nil-append (join "," (q ∷ ps)),
        split_front b',' p (join "," (q ∷ ps)) comma h refl,
        split-join q ps more,
      )
      refl

right_strip_plain :
    (s t : String) → is_plain_text s ≡ true → right_strip (s <> t) ≡ s <> right_strip t
unfolding right_strip is_plain_text
right_strip_plain String.[] t h = rw (nil-append t, nil-append (right_strip t)) refl
right_strip_plain (c ⊳ s) t h = elim (Bool-cases (is_space (code c))) [
  | inl e ↦ cc (rw e at h)
  | inr e ↦ elim (Bool-cases (eqb (code c) b',')) [
    | inl k ↦ cc (rw (e, k) at h)
    | inr k ↦
        rw
          (
            cons-append c s t,
            cons-append c s (right_strip t),
            right_strip,
            e,
            right_strip_plain s t (rw (e, k) at h),
          )
          refl
  ]
]

plain_parts :
    (c : ℕ)
    → is_plain_char c ≡ true
    → (is_space c ≡ false) × (eqb c b',' ≡ false) × (eqb c b' ' ≡ false)
unfolding is_space
plain_parts c h = (ground arith, ground arith, ground arith)

head_plain :
    (c : Char) (s : String)
    → is_plain_text (c ⊳ s) ≡ true
    → (is_plain_char (code c) ≡ true) × (is_plain_text s ≡ true)
unfolding is_plain_text
head_plain c s h = elim (Bool-cases (is_plain_char (code c))) [
  | inl e ↦ (e, rw e at h)
  | inr e ↦ cc (rw e at h)
]

pub plain-has_no : (s : String) → is_plain_text s ≡ true → has_no b',' s ≡ true
unfolding has_no
plain-has_no String.[] h = refl
plain-has_no (c ⊳ s) h =
    let (first, rest) = head_plain c s h in
    let (_, no_comma, _) = plain_parts (code c) first in rw no_comma (plain-has_no s rest)

abbrev pub blank : Char
blank = char_at " " 0

pub split_once_front :
    (k t : String) → is_plain_text k ≡ true → split_once b' ' (k <> (blank ⊳ t)) ≡ some (k, t)
unfolding split_once
split_once_front String.[] t h = rw (nil-append (blank ⊳ t)) refl
split_once_front (c ⊳ k) t h =
    let (first, rest) = head_plain c k h in
    let (_, _, no_blank) = plain_parts (code c) first in
    rw (cons-append c k (blank ⊳ t), split_once, no_blank, split_once_front k t rest) refl

pub split_once_plain : (k : String) → is_plain_text k ≡ true → split_once b' ' k ≡ none
unfolding split_once
split_once_plain String.[] h = refl
split_once_plain (c ⊳ k) h =
    let (first, rest) = head_plain c k h in
    let (_, _, no_blank) = plain_parts (code c) first in rw (no_blank, split_once_plain k rest) refl

right_strip_whole : (s : String) → is_plain_text s ≡ true → right_strip s ≡ s
unfolding right_strip
right_strip_whole s h =
    let stripped : right_strip (s <> "") ≡ s <> "" = right_strip_plain s "" h in
    rw (append-nil s) at stripped

-- What is left of `key value` once it is stripped.
abbrev pub pair_text : String → String → String
pair_text k b = if b == "" then k else k <> " " <> b

right_strip_blank :
    (b : String)
    → is_plain_text b ≡ true
    → right_strip (" " <> b) ≡ (if b == "" then "" else " " <> b)
unfolding right_strip is_space
right_strip_blank b h =
    rw (cons-append blank "" b, nil-append b, right_strip, right_strip_whole b h) refl

left_strip_plain : (k t : String) → is_plain_text k ≡ true → k ≢ "" → left_strip (k <> t) ≡ k <> t
unfolding left_strip
left_strip_plain String.[] t h some_key = absurd (some_key refl)
left_strip_plain (c ⊳ k) t h some_key =
    let (first, _) = head_plain c k h in
    let (no_space, _, _) = plain_parts (code c) first in
    rw (cons-append c k t, left_strip, no_space) refl

pub strip_pair :
    (k b : String)
    → is_plain_text k ≡ true
    → k ≢ ""
    → is_plain_text b ≡ true
    → strip (k <> " " <> b) ≡ pair_text k b
unfolding strip
strip_pair k b plain_k some_key plain_b =
    rw
      (
        left_strip_plain k (" " <> b) plain_k some_key,
        right_strip_plain k (" " <> b) plain_k,
        right_strip_blank b plain_b,
      )
      (elim (Bool-cases (b == "")) [ inl e ↦ rw e (append-nil k) | inr e ↦ rw e refl ])

-- What follows a key that is not empty.
pub front-not_empty : (k t : String) → k ≢ "" → (k <> t == "") ≡ false
front-not_empty String.[] t some_key = absurd (some_key refl)
front-not_empty (c ⊳ k) t some_key = elim (Bool-cases ((c ⊳ k) <> t == "")) [
  | inl e ↦
      absurd (cons-ne-nil c (k <> t) (rw (cons-append c k t) at ((eq_iff ((c ⊳ k) <> t) "").0 e)))
  | inr e ↦ e
]

pub not_empty : (k : String) → k ≢ "" → (k == "") ≡ false
not_empty k some_key = elim (Bool-cases (k == "")) [
  | inl e ↦ absurd (some_key ((eq_iff k "").0 e))
  | inr e ↦ e
]

pub has_no-append :
    (sep : ℕ) (s t : String)
    → has_no sep s ≡ true
    → has_no sep t ≡ true
    → has_no sep (s <> t) ≡ true
unfolding has_no
has_no-append sep String.[] t h k = rw (nil-append t) k
has_no-append sep (c ⊳ s) t h k = elim (Bool-cases (eqb (code c) sep)) [
  | inl e ↦ cc (rw e at h)
  | inr e ↦ rw (cons-append c s t, has_no, e) (has_no-append sep s t (rw e at h) k)
]
