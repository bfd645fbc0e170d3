-- ===== src/Server/Download/Injection.antt =====
-- Which characters of the metadata reach the headers of a download.
use Prim.Native.Char.{Char, code}
use Prim.Native.String.{◌∷◌ as ◌⊳◌}
use text.Mathlib.TextLemmas.{cons-append}
use resumable_upload.Prelude.{
  ℕ, ◌≡◌, refl, String, ◌<>◌, ◌==◌, Bool, true, false, not, ◌&&◌, ◌||◌, some, eqb, arith,
  Bool-cases, inl, inr, is_digit, is_ascii, or_default,
}
use resumable_upload.Prelude.Dict
use resumable_upload.Prelude.Dict.{Dict}
use resumable_upload.Headers.Pieces.{has_no}
use resumable_upload.Server.{Server}
use resumable_upload.Server.Download.{
  is_token_char, is_mime, clean_filename, disposition, content_headers, subtype_rest, type_rest,
  starts_token, is_alnum, one_of,
}

-- No line end, no quote and no backslash.
abbrev pub is_clean_char : ℕ → Bool
is_clean_char c = not (eqb c 13 || eqb c 10 || eqb c 34 || eqb c 92)

unfoldable pub is_clean : String → Bool
is_clean String.[] = true
is_clean (c ⊳ s) = is_clean_char (code c) && is_clean s

clean_filename-is_clean : (s : String) → is_clean (clean_filename s) ≡ true
unfolding clean_filename is_clean
clean_filename-is_clean String.[] = refl
clean_filename-is_clean (c ⊳ s) = ground (arith, clean_filename-is_clean s)

clean_filename-keeps : (s : String) → is_clean s ≡ true → clean_filename s ≡ s
unfolding clean_filename is_clean
clean_filename-keeps String.[] h = refl
clean_filename-keeps (c ⊳ s) h = ground (arith, clean_filename-keeps s)

-- Whatever the metadata holds, the Content-Disposition of a download is made of a name that has no
-- CR, LF, quote and backslash; the name is the metadata's own one, if that has none of them.
pub content_headers-is_clean :
    (v : Server) (m : Dict String)
    → let name = or_default (Dict.get m "filename") "" in
      (f : String) × (is_clean f ≡ true)
      × (is_clean name ≡ true → f ≡ name)
      × (Dict.get (content_headers v m) "Content-Disposition" ≡ some (disposition v f))
unfolding content_headers Dict.get
content_headers-is_clean v m =
    let name = or_default (Dict.get m "filename") "" in
    (clean_filename name, clean_filename-is_clean name, clean_filename-keeps name, refl)

both : (a b : Bool) → (a && b) ≡ true → (a ≡ true) × (b ≡ true)
both true b h = (refl, h)
both false b h = cc h

no_feed_twice : (a b : Bool) → (not a && b) ≡ true → a ≡ false
no_feed_twice true b h = cc h
no_feed_twice false b h = refl

has_no_tail : (c : Char) (s : String) → has_no b'\n' (c ⊳ s) ≡ true → has_no b'\n' s ≡ true
unfolding has_no
has_no_tail c s k = let (_, rest) = both (not (eqb (code c) b'\n')) (has_no b'\n' s) k in rest

-- The second part of a media type may end in a line feed.
subtype_rest-line_feed :
    (s : String) → subtype_rest s ≡ true → has_no b'\n' s ≡ true → subtype_rest (s <> "\n") ≡ true
unfolding subtype_rest has_no is_token_char is_alnum one_of is_digit
subtype_rest-line_feed String.[] h k = refl
subtype_rest-line_feed (c ⊳ s) h k = elim (Bool-cases (is_token_char (code c))) [
  | inl token ↦
      rw (cons-append c s "\n", subtype_rest, token)
        (subtype_rest-line_feed s (rw token at h) (has_no_tail c s k))
  | inr other ↦
      let no_feed = no_feed_twice (eqb (code c) b'\n') (has_no b'\n' s) k in
      let left : (eqb (code c) b'\n' && s == "") ≡ true = rw other at h in
      let (feed, _) = both (eqb (code c) b'\n') (s == "") left in cc (no_feed, feed)
]

starts_token-append : (s t : String) → starts_token s ≡ true → starts_token (s <> t) ≡ true
unfolding starts_token
starts_token-append String.[] t h = cc h
starts_token-append (c ⊳ s) t h = rw (cons-append c s t) h

type_rest-line_feed :
    (s : String) → type_rest s ≡ true → has_no b'\n' s ≡ true → type_rest (s <> "\n") ≡ true
unfolding type_rest
type_rest-line_feed String.[] h k = cc h
type_rest-line_feed (c ⊳ s) h k = elim (Bool-cases (is_token_char (code c))) [
  | inl token ↦
      rw (cons-append c s "\n", type_rest, token)
        (type_rest-line_feed s (rw token at h) (has_no_tail c s k))
  | inr other ↦
      let left : ((eqb (code c) b'/' && starts_token s) && subtype_rest s) ≡ true = rw other at h in
      let (front, rest) = both (eqb (code c) b'/' && starts_token s) (subtype_rest s) left in
      let (slash, starts) = both (eqb (code c) b'/') (starts_token s) front in
      rw
        (
          cons-append c s "\n",
          type_rest,
          other,
          slash,
          starts_token-append s "\n" starts,
          subtype_rest-line_feed s rest (has_no_tail c s k),
        )
        refl
]

is_mime-line_feed :
    (t : String) → is_mime t ≡ true → has_no b'\n' t ≡ true → is_mime (t <> "\n") ≡ true
unfolding is_mime
is_mime-line_feed t h k =
    let (starts, rest) = both (starts_token t) (type_rest t) h in
    rw (starts_token-append t "\n" starts, type_rest-line_feed t rest k) refl

-- When the metadata's filetype is a media type that `_MIME_RE` accepts, followed by a line
-- feed, `_content_headers` puts it into Content-Type with the line feed.
pub content_headers-line_feed :
    (v : Server) (t : String) (m : Dict String)
    → is_mime t ≡ true
    → has_no b'\n' t ≡ true
    → Dict.get m "filetype" ≡ some (t <> "\n")
    → Dict.get (content_headers v m) "Content-Type" ≡ some (t <> "\n")
unfolding content_headers Dict.get
content_headers-line_feed v t m h k e = rw (e, is_mime-line_feed t h k) refl

-- When the metadata names a file by a nonempty ASCII text without CR, LF, quote and backslash,
-- the download's Content-Disposition has that name between quotes, unchanged.
pub content_headers-filename :
    (v : Server) (f : String) (m : Dict String)
    → is_clean f ≡ true
    → is_ascii f ≡ true
    → (f == "") ≡ false
    → Dict.get m "filename" ≡ some f
    → Dict.get (content_headers v m) "Content-Disposition"
      ≡ some ("attachment; filename=\"" <> f <> "\"")
unfolding content_headers Dict.get
content_headers-filename v f m clean ascii nonempty e =
    rw (e, clean_filename-keeps f clean, nonempty, ascii) refl
