-- ===== src/Tests/Downloading.antt =====
-- The headers of a download whose metadata is chosen to break them.
use resumable_upload.Prelude.{◌≡◌, refl, String, ◌<>◌, true, some, [], ◌∷◌, or_default}
use resumable_upload.Prelude.Dict
use resumable_upload.Prelude.Dict.{Dict}
use resumable_upload.Headers.Pieces.{has_no}
use resumable_upload.Server.Download.{clean_filename, disposition, content_headers, is_mime}
use resumable_upload.Server.Download.Injection.{
  is_clean, content_headers-is_clean, content_headers-line_feed,
}
use resumable_upload.Tests.Data.{v}

-- A quote, a carriage return and a line feed go; the rest stays.
cleaned : clean_filename "a\"\r\nSet-Cookie: x" ≡ "aSet-Cookie: x"
unfolding clean_filename
cleaned = refl

abbrev hostile : Dict String
hostile = ("filename", "a\"\r\nSet-Cookie: x") ∷ []

content_headers-is_clean_example :
    let name = or_default (Dict.get hostile "filename") "" in
    (f : String) × (is_clean f ≡ true)
    × (is_clean name ≡ true → f ≡ name)
    × (Dict.get (content_headers v hostile) "Content-Disposition" ≡ some (disposition v f))
content_headers-is_clean_example = content_headers-is_clean v hostile

abbrev m : Dict String
m = ("filename", "a b.txt") ∷ ("filetype", "text/plain" <> "\n") ∷ []

content_headers-line_feed_example :
    Dict.get (content_headers v m) "Content-Type" ≡ some ("text/plain" <> "\n")
unfolding is_mime has_no Dict.get
content_headers-line_feed_example = content_headers-line_feed v "text/plain" m refl refl refl
