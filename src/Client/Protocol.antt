-- ===== src/Client/Protocol.antt =====
-- resumable_upload/client/_protocol.py: the helpers that the clients share.
pub mod Ranges
use Prim.Native.Char.{code}
use Prim.Native.String.{◌∷◌ as ◌⊳◌}
use mathlib.Core.Option
use resumable_upload.Prelude.Dict
use resumable_upload.Prelude.Dict.{Dict}
use resumable_upload.Prelude.{
  ℕ, zero, suc, ◌+◌, ◌*◌, ◌^◌, ◌/◌, min, String, ◌<>◌, ◌==◌, Bool, true, false, ◌&&◌, ◌||◌, Option,
  none, some, List, [], ◌∷◌, if◌then◌else◌, eqb, ltb, leb, lower, is_space, strip, split,
  split_once, int, ℤ, pos, negsuc, is_some, or_default,
}

-- The loop body from the part on that has `remaining` parts behind it.
unfoldable pub split_from : ℕ → ℕ → ℕ → ℕ → List (ℕ × ℕ)
split_from file_size base zero start = []
split_from file_size base (suc remaining) start =
    let end = if eqb remaining 0 then file_size else start + base in
    let rest = split_from file_size base remaining end in
    if ltb start end then (start, end) ∷ rest else rest

unfoldable pub split_boundaries : ℕ → ℕ → List (ℕ × ℕ)
unfolding split_from
split_boundaries file_size parts =
    if eqb file_size 0 || eqb parts 0 then [] else split_from file_size (file_size / parts) parts 0

-- `none` is a network error.
unfoldable pub is_retriable_status : Option ℕ → Bool
is_retriable_status none = true
is_retriable_status (some status) =
    leb 500 status || eqb status 408 || eqb status 423 || eqb status 429

-- Seconds are microseconds here.
unfoldable pub retry_delay : ℕ → ℕ → ℕ
retry_delay base attempt = min (base * 2 ^ attempt) 60000000

abbrev pub partials_key : String → String
partials_key fingerprint = fingerprint <> "#partials"

-- `checksum` is None, a bool, or a text.
pub data Checksum : Type 0 where
  no_checksum : Checksum
  flag : Bool → Checksum
  named : String → Checksum

unfoldable pub resolve_checksum_algorithm : Checksum → Option String
unfolding lower
resolve_checksum_algorithm no_checksum = none
resolve_checksum_algorithm (flag false) = none
resolve_checksum_algorithm (flag true) = some "sha1"
resolve_checksum_algorithm (named algorithm) = some (lower algorithm)

-- _KEY_RE finds a blank or a comma.
unfoldable pub has_blank_or_comma : String → Bool
has_blank_or_comma String.[] = false
has_blank_or_comma (c ⊳ s) = is_space (code c) || eqb (code c) b',' || has_blank_or_comma s

abbrev pub is_bad_key : String → Bool
is_bad_key key = key == "" || has_blank_or_comma key

-- `b64encode` is the base64 of the encoded text; `none` is a ValueError.
unfoldable pub encode_metadata : (String → String) → Dict String → Option (List String)
unfolding has_blank_or_comma
encode_metadata b64encode [] = some []
encode_metadata b64encode ((key, value) ∷ metadata) =
    let rest = encode_metadata b64encode metadata in
    if is_bad_key key
    then none
    else Option.map (λ entries. (key <> " " <> b64encode value) ∷ entries) rest

-- `b64decode` decodes base64 and then the text; `none` is a ValueError or a UnicodeDecodeError.
abbrev decoded_or : String → Option String → String
decoded_or value none = value
decoded_or value (some text) = text

abbrev put_pair : (String → Option String) → Option (String × String) → Dict String → Dict String
put_pair b64decode none out = out
put_pair b64decode (some (key, value)) out = Dict.put out key (decoded_or value (b64decode value))

unfoldable pub put_pairs : (String → Option String) → List String → Dict String → Dict String
unfolding strip
put_pairs b64decode [] out = out
put_pairs b64decode (pair ∷ pairs) out =
    put_pairs b64decode pairs (put_pair b64decode (split_once b' ' (strip pair)) out)

unfoldable pub parse_upload_metadata : (String → Option String) → Option String → Dict String
unfolding put_pairs split
parse_upload_metadata b64decode none = []
parse_upload_metadata b64decode (some header) =
    if header == "" then [] else put_pairs b64decode (split b',' header) []

-- The dict of `get_upload_info`.
pub record UploadInfo : Type 0 where
  pub offset : ℤ
  pub length : ℤ
  pub complete : Bool
  pub metadata : Dict String

-- a >= b
abbrev pub at_least : ℤ → ℤ → Bool
at_least (pos m) (pos n) = leb n m
at_least (pos m) (negsuc n) = true
at_least (negsuc m) (pos n) = false
at_least (negsuc m) (negsuc n) = leb m n

-- int(offset) if offset else 0
abbrev offset_value : Option String → Option ℤ
offset_value none = some (pos 0)
offset_value (some t) = if t == "" then some (pos 0) else int t

-- int(length) if length is not None else 0
abbrev length_value : Option String → Option ℤ
length_value none = some (pos 0)
length_value (some t) = int t

abbrev upload_info : Bool → Option ℤ → Option ℤ → Dict String → Option UploadInfo
upload_info declared none m metadata = none
upload_info declared (some n) none metadata = none
upload_info declared (some n) (some m) metadata =
    some
      (record { offset = n; length = m; complete = declared && at_least n m; metadata = metadata })

-- `none` is a ValueError.
unfoldable pub parse_upload_info :
    (String → Option String) → Option String → Option String → Option String → Option UploadInfo
unfolding parse_upload_metadata
parse_upload_info b64decode offset length metadata =
    upload_info (is_some length) (offset_value offset) (length_value length)
      (parse_upload_metadata b64decode metadata)

-- The dict of `get_server_info`.
pub record ServerInfo : Type 0 where
  pub version : String
  pub extensions : List String
  pub max_size : Option ℤ

-- [e.strip() for e in parts if e.strip()]
stripped : List String → List String
unfolding strip
stripped [] = []
stripped (p ∷ parts) = let rest = stripped parts in if strip p == "" then rest else strip p ∷ rest

abbrev extensions_value : Option String → List String
extensions_value none = []
extensions_value (some t) = if t == "" then [] else stripped (split b',' t)

abbrev server_info : String → List String → Option (Option ℤ) → Option ServerInfo
server_info version extensions none = none
server_info version extensions (some max_size) =
    some (record { version = version; extensions = extensions; max_size = max_size })

-- int(max_size) if max_size else None
abbrev size_value : Option String → Option (Option ℤ)
size_value none = some none
size_value (some t) = if t == "" then some none else Option.map (λ n. some n) (int t)

-- `none` is a ValueError.
unfoldable pub parse_server_info :
    Option String → Option String → Option String → String → Option ServerInfo
unfolding stripped
parse_server_info version extension max_size default_version =
    server_info (or_default version default_version) (extensions_value extension)
      (size_value max_size)
