-- ===== src/Tests/Describing.antt =====
-- Metadata of two entries, with a base64 that leaves plain texts as they are.
use resumable_upload.Prelude.{
  ◌≤◌, ◌≡◌, refl, String, some, List, [], ◌∷◌, arith, join, is_space, is_ascii, text_length,
}
use resumable_upload.Prelude.Dict
use resumable_upload.Prelude.Dict.{Dict, NodupKeys}
use resumable_upload.Headers.{parsed, parse_metadata}
use resumable_upload.Headers.Pieces.{is_plain_text}
use resumable_upload.Server.Head.{encode_entries}
use resumable_upload.Server.Head.Metadata.{IsKey, IsEncoded, AllEntries}
use resumable_upload.Client.Protocol.{encode_metadata, parse_upload_metadata}
use resumable_upload.EndToEnd.Dropped.{parse_upload_metadata-encode_entries}
use resumable_upload.EndToEnd.Metadata.{parse_metadata-encode_metadata}
use resumable_upload.Tests.Data.{v}

abbrev m : Dict String
m = ("filename", "a.txt") ∷ ("private", "") ∷ []

filename_IsKey : IsKey "filename"
unfolding is_plain_text is_space is_ascii
filename_IsKey = (refl, (λ e. cc e), refl)

private_IsKey : IsKey "private"
unfolding is_plain_text is_space is_ascii
private_IsKey = (refl, (λ e. cc e), refl)

text_IsEncoded : IsEncoded v.library "a.txt"
unfolding is_plain_text is_space
text_IsEncoded = record { decode-encode = refl; encode-plain = refl; encode-empty = λ e. e }

empty_IsEncoded : IsEncoded v.library ""
unfolding is_plain_text
empty_IsEncoded = record { decode-encode = refl; encode-plain = refl; encode-empty = λ e. e }

entries : AllEntries v.library m
entries = ((filename_IsKey, text_IsEncoded), ((private_IsKey, empty_IsEncoded), tt))

keys_once : NodupKeys m
unfolding Dict.get
keys_once = (refl, (refl, tt))

short : text_length (join "," (encode_entries v m)) ≤ 4096
unfolding join encode_entries
short = omega arith

parse_metadata-encode_metadata_example :
    (pairs : List String) × (encode_metadata v.library.b64encode_text m ≡ some pairs)
    × (parse_metadata v.library.b64decode_text (join "," pairs) 4096 ≡ parsed m)
parse_metadata-encode_metadata_example =
    parse_metadata-encode_metadata v m 4096 entries keys_once short

parse_upload_metadata-encode_entries_example :
    parse_upload_metadata (λ t. some t) (some (join "," (encode_entries v (("private", "") ∷ []))))
    ≡ []
parse_upload_metadata-encode_entries_example =
    parse_upload_metadata-encode_entries v "private" (λ t. some t) private_IsKey.0 private_IsKey.1
      refl
