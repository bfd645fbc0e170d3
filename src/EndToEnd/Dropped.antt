-- ===== src/EndToEnd/Dropped.antt =====
-- The client's reading of metadata with an empty value.
use resumable_upload.Prelude.{
  ◌≡◌, ◌≢◌, refl, String, ◌<>◌, true, Option, some, [], ◌∷◌, join, split, strip,
}
use resumable_upload.Headers.Pieces.{
  is_plain_text, has_no, split-join, plain-has_no, has_no-append, strip_pair, split_once_plain,
  front-not_empty,
}
use resumable_upload.Server.{Server}
use resumable_upload.Server.Head.{encode_entries}
use resumable_upload.Client.Protocol.{parse_upload_metadata, put_pairs}

-- An entry with an empty value, which the server keeps and reports by HEAD, is dropped by the
-- client's parser: its piece of the header has no blank left once it is stripped.
pub parse_upload_metadata-encode_entries :
    (v : Server) (k : String) (b64decode : String → Option String)
    → is_plain_text k ≡ true
    → k ≢ ""
    → v.library.b64encode_text "" ≡ ""
    → parse_upload_metadata b64decode (some (join "," (encode_entries v ((k, "") ∷ [])))) ≡ []
unfolding parse_upload_metadata put_pairs encode_entries join has_no is_plain_text
parse_upload_metadata-encode_entries v k b64decode plain some_key empty =
    let piece : String = k <> " " in
    let whole : split b',' piece ≡ piece ∷ [] =
      split-join piece [] (has_no-append b',' k " " (plain-has_no k plain) refl, tt) in
    let bare : strip piece ≡ k = strip_pair k "" plain some_key refl in
    rw (empty, front-not_empty k " " some_key, whole, bare, split_once_plain k plain) refl
