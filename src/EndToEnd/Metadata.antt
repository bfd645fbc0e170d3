-- ===== src/EndToEnd/Metadata.antt =====
-- What the client and the server tell each other of an upload: its metadata, its offset and its
-- length.
use Prim.Native.String.{◌∷◌ as ◌⊳◌}
use resumable_upload.Prelude.{
  ℕ, ◌≤◌, ◌≡◌, refl, String, ◌==◌, eq_iff, true, false, some, List, [], ◌∷◌, arith, join,
  text_length, Bool-cases, inl, inr,
}
use resumable_upload.Prelude.Dict.{Dict, NodupKeys}
use resumable_upload.Headers.{parsed, parse_metadata}
use resumable_upload.Headers.Pieces.{is_plain_text}
use resumable_upload.Server.{Server}
use resumable_upload.Server.Head.{encode_entries}
use resumable_upload.Server.Head.Metadata.{AllEntries, parse_metadata-encode_entries}
use resumable_upload.Client.Protocol.{has_blank_or_comma, encode_metadata}

plain_key : (k : String) → is_plain_text k ≡ true → has_blank_or_comma k ≡ false
unfolding is_plain_text has_blank_or_comma
plain_key String.[] plain = refl
plain_key (c ⊳ k) plain = ground (arith, plain_key k)

-- The client and the server encode metadata in the same way.
encode_metadata_lem :
    (v : Server) (m : Dict String)
    → AllEntries v.library m
    → encode_metadata v.library.b64encode_text m ≡ some (encode_entries v m)
unfolding encode_metadata encode_entries
encode_metadata_lem v [] keys = refl
encode_metadata_lem v ((k, t) ∷ m) (((plain, some_key, ascii), B), keys) =
    elim (Bool-cases (k == "")) [
      | inl empty ↦ absurd (some_key ((eq_iff k "").0 empty))
      | inr full ↦ rw (full, plain_key k plain, encode_metadata_lem v m keys) refl
    ]

-- The metadata that a client sends with a creation is accepted, and parsed by the server as the
-- same metadata, in the same order: for keys that are not empty, in ASCII, without blanks and
-- commas and each of them once, with a base64 that keeps its promises on the values, and as long as
-- the header is within the parser's limit.
pub parse_metadata-encode_metadata :
    (v : Server) (m : Dict String) (max_size : ℕ)
    → AllEntries v.library m
    → NodupKeys m
    → text_length (join "," (encode_entries v m)) ≤ max_size
    → (entries : List String) × (encode_metadata v.library.b64encode_text m ≡ some entries)
      × (parse_metadata v.library.b64decode_text (join "," entries) max_size ≡ parsed m)
parse_metadata-encode_metadata v m max_size keys nodup fits = (
  encode_entries v m,
  encode_metadata_lem v m keys,
  parse_metadata-encode_entries v m max_size keys nodup fits,
)
