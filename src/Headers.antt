-- ===== src/Headers.antt =====
-- resumable_upload/server/headers.py: upload ids, the Upload-Metadata header and CORS headers.
pub mod Ids
pub mod Pieces
use Prim.Native.Char.{Char, code}
use Prim.Native.String.{◌∷◌ as ◌⊳◌}
use resumable_upload.Prelude.{
  ℕ, zero, suc, ◌+◌, String, ◌<>◌, ◌==◌, Bool, true, false, not, ◌&&◌, ◌||◌, Option, none, some,
  List, [], ◌∷◌, if◌then◌else◌, leb, ltb, eqb, or_default, strip, split, split_once, is_ascii,
  lower, contains_text, text_length, str,
}
use resumable_upload.Prelude.Dict
use resumable_upload.Prelude.Dict.{Dict}

abbrev pub tus_expose_headers : String
tus_expose_headers =
    "Upload-Offset,Location,Upload-Length,Tus-Version,Tus-Resumable,Tus-Max-Size,Tus-Extension,Upload-Metadata,Upload-Expires,Upload-Concat"

abbrev pub tus_allow_headers : String
tus_allow_headers =
    "Origin,X-Requested-With,Content-Type,Upload-Length,Upload-Offset,Tus-Resumable,Upload-Metadata,Upload-Checksum,Upload-Expires,Upload-Concat,Upload-Defer-Length,X-HTTP-Method-Override,X-Request-ID"

abbrev pub max_metadata_size : ℕ
max_metadata_size = 4096

-- [0-9a-f]
unfoldable pub is_hex : ℕ → Bool
is_hex c = leb b'0' c && leb c b'9' || leb b'a' c && leb c b'f'

-- What is left behind `n` characters of [0-9a-f].
unfoldable pub hex_run : ℕ → String → Option String
unfolding is_hex
hex_run zero s = some s
hex_run (suc n) String.[] = none
hex_run (suc n) (c ⊳ s) = let rest = hex_run n s in if is_hex (code c) then rest else none

unfoldable pub dash : String → Option String
dash String.[] = none
dash (c ⊳ s) = if eqb (code c) b'-' then some s else none

infixl 5 ◌>>=◌
abbrev ◌>>=◌ : {A B : Type 0} → Option A → (A → Option B) → Option B
none >>= f = none
some a >>= f = f a

-- `$` matches at the end, and before a line feed that ends the text.
abbrev pub at_end : Option String → Bool
at_end none = false
at_end (some s) = s == "" || s == "\n"

-- The rest behind the five groups of _UUID_RE.
unfoldable pub uuid_rest : String → Option String
unfolding hex_run dash
uuid_rest s = do
  a ← hex_run 8 s
  b ← dash a
  c ← hex_run 4 b
  d ← dash c
  e ← hex_run 4 d
  f ← dash e
  g ← hex_run 4 f
  h ← dash g
  hex_run 12 h

unfoldable pub validate_upload_id : String → Bool
unfolding uuid_rest
validate_upload_id upload_id = at_end (uuid_rest upload_id)

-- `(metadata, "")` or `(None, message)`.
pub data Parsed : Type 0 where
  parsed : Dict String → Parsed
  malformed : String → Parsed

-- The text that a value encodes, or the message of the exception.
pub data Decoded : Type 0 where
  decoded : String → Decoded
  undecodable : String → Decoded

module _ (b64decode_text : String → Decoded) where
  abbrev decode_value : String → String → Dict String → Decoded → Parsed
  decode_value key value metadata (decoded text) = parsed (Dict.put metadata key text)
  decode_value key value metadata (undecodable e) =
      malformed ("Invalid base64 encoding for metadata key '" <> key <> "': " <> e)

  unfoldable pub add_entry : String × String → Dict String → Parsed
  add_entry (key, value) metadata =
      if not (is_ascii key)
      then malformed ("Upload-Metadata key must be ASCII: '" <> key <> "'")
      else if Dict.contains metadata key
      then malformed ("Duplicate Upload-Metadata key: '" <> key <> "'")
      else if value == ""
      then parsed (Dict.put metadata key "")
      else decode_value key value metadata (b64decode_text value)

  -- One round of the loop, on a stripped pair.
  unfoldable pub add_pair : String → Dict String → Parsed
  unfolding add_entry
  add_pair pair metadata =
      if pair == ""
      then parsed metadata
      else add_entry (or_default (split_once b' ' pair) (pair, "")) metadata

  unfoldable pub add_pairs : List String → Dict String → Parsed
  unfolding add_pair
  add_pairs [] metadata = parsed metadata
  add_pairs (pair ∷ pairs) metadata = elim (add_pair (strip pair) metadata) [
    | parsed m ↦ add_pairs pairs m
    | malformed message ↦ malformed message
  ]

  unfoldable pub parse_metadata : String → ℕ → Parsed
  unfolding add_pairs strip split
  parse_metadata upload_metadata max_size =
      if upload_metadata == ""
      then parsed []
      else if ltb max_size (text_length upload_metadata)
      then malformed ("Upload-Metadata exceeds maximum size of " <> str max_size <> " bytes")
      else add_pairs (split b',' upload_metadata) []

-- `cors_allow_origins`: None, a text, or a list of origins.
pub data Origins : Type 0 where
  no_origins : Origins
  origin_text : String → Origins
  origin_list : List String → Origins

unfoldable pub member : List String → String → Bool
member [] s = false
member (x ∷ xs) s = x == s || member xs s

abbrev configured : Origins → Bool
configured no_origins = false
configured (origin_text s) = not (s == "")
configured (origin_list []) = false
configured (origin_list (_ ∷ _)) = true

abbrev listed : List String → Option String → Option String
listed origins none = none
listed origins (some o) = if member origins o then some o else none

-- The value to allow, and whether it depends on the request's origin.
unfoldable pub allowed_origin : Origins → Option String → Bool → Option String × Bool
unfolding member
allowed_origin no_origins origin credentials = (none, false)
allowed_origin (origin_text s) origin credentials =
    if s == "*" && credentials then (origin, true) else (some s, false)
allowed_origin (origin_list l) origin credentials = (listed l origin, true)

abbrev vary_on_origin : Dict String → Option String → Dict String
vary_on_origin headers none = Dict.put headers "Vary" "Origin"
vary_on_origin headers (some existing) =
    if existing == ""
    then Dict.put headers "Vary" "Origin"
    else if contains_text "origin" (lower existing)
    then headers
    else Dict.put headers "Vary" (existing <> ", Origin")

abbrev allow : Dict String → Option String → Bool → Option ℕ → Bool → Dict String
allow headers none credentials max_age preflight = headers
allow headers (some allowed) credentials max_age preflight =
    if allowed == ""
    then headers
    else (let h : Dict String =
          Dict.put
            (Dict.put
              (Dict.put (Dict.put headers "Access-Control-Allow-Origin" allowed)
                "Access-Control-Expose-Headers" tus_expose_headers)
              "Access-Control-Allow-Methods" "GET,POST,HEAD,PATCH,DELETE,OPTIONS")
            "Access-Control-Allow-Headers" tus_allow_headers in
        let h' : Dict String =
          if credentials then Dict.put h "Access-Control-Allow-Credentials" "true" else h in
        (elim max_age [
          | none ↦ h'
          | some seconds ↦
              if preflight then Dict.put h' "Access-Control-Max-Age" (str seconds) else h'
        ]))

unfoldable pub add_cors_headers :
    Dict String → Origins → Option String → Bool → Option ℕ → Bool → Dict String
unfolding allowed_origin
add_cors_headers headers origins origin credentials max_age preflight =
    if not (configured origins)
    then headers
    else (let (allowed, origin_dependent) = allowed_origin origins origin credentials in
        let varied : Dict String =
          if origin_dependent then vary_on_origin headers (Dict.get headers "Vary") else headers in
        allow varied allowed credentials max_age preflight)
