-- ===== src/Server/Download.antt =====
-- resumable_upload/server/handlers/get.py: downloads of completed uploads.
pub mod Injection
pub mod Serves
use Prim.Native.Char.{code}
use Prim.Native.String.{◌∷◌ as ◌⊳◌}
use resumable_upload.Prelude.{
  ℕ, String, ◌<>◌, ◌==◌, Bool, true, false, not, ◌&&◌, ◌||◌, Option, none, some, [], ◌∷◌,
  if◌then◌else◌, or_default, leb, eqb, Bytes, str, is_ascii, is_digit,
}
use resumable_upload.Prelude.Dict
use resumable_upload.Prelude.Dict.{Dict}
use resumable_upload.Exec.{Result, ok, raise, Exec}
use resumable_upload.Storage.{Upload, Storage}
use resumable_upload.Server.{
  Server, World, Response, stream, tus_version, error_response, has_expired,
}
use resumable_upload.Server.Checked.{Checked, accept, refuse, refuse_if, ◌>>◌}

-- [a-zA-Z0-9]
unfoldable pub is_alnum : ℕ → Bool
unfolding is_digit
is_alnum c = is_digit c || leb b'a' c && leb c b'z' || leb b'A' c && leb c b'Z'

unfoldable pub one_of : ℕ → String → Bool
one_of c String.[] = false
one_of c (d ⊳ s) = eqb c (code d) || one_of c s

-- [a-zA-Z0-9!#$&^_.+-]
unfoldable pub is_token_char : ℕ → Bool
unfolding is_alnum one_of
is_token_char c = is_alnum c || one_of c "!#$&^_.+-"

-- The second token, up to the end or a last line feed, which `$` lets pass.
unfoldable pub subtype_rest : String → Bool
unfolding is_token_char
subtype_rest String.[] = true
subtype_rest (c ⊳ s) =
    let rest = subtype_rest s in
    if is_token_char (code c) then rest else eqb (code c) b'\n' && s == ""

unfoldable pub starts_token : String → Bool
unfolding is_alnum
starts_token String.[] = false
starts_token (c ⊳ s) = is_alnum (code c)

unfoldable pub type_rest : String → Bool
unfolding is_token_char subtype_rest starts_token
type_rest String.[] = false
type_rest (c ⊳ s) =
    let rest = type_rest s in
    if is_token_char (code c) then rest else eqb (code c) b'/' && starts_token s && subtype_rest s

-- _MIME_RE.match(filetype)
unfoldable pub is_mime : String → Bool
unfolding type_rest starts_token
is_mime s = starts_token s && type_rest s

-- re.sub(r'[\r\n"\\]', "", filename)
unfoldable pub clean_filename : String → String
clean_filename String.[] = ""
clean_filename (c ⊳ s) =
    let rest = clean_filename s in
    if eqb (code c) 13 || eqb (code c) 10 || eqb (code c) 34 || eqb (code c) 92
    then rest
    else c ⊳ rest

abbrev pub disposition : Server → String → String
disposition v filename =
    if filename == ""
    then "attachment"
    else if is_ascii filename
    then "attachment; filename=\"" <> filename <> "\""
    else "attachment; filename=\"download\"; filename*=UTF-8''" <> v.library.quote filename

-- _content_headers
unfoldable pub content_headers : Server → Dict String → Dict String
unfolding is_mime clean_filename
content_headers v metadata =
    let filetype = or_default (Dict.get metadata "filetype") "" in
    let filename = clean_filename (or_default (Dict.get metadata "filename") "") in
    ("Content-Type", if is_mime filetype then filetype else "application/octet-stream")
    ∷ ("Content-Disposition", disposition v filename)
    ∷ []

-- _plan_get
unfoldable pub plan_get : ℕ → Option Upload → Checked Upload
plan_get now none = refuse (error_response 404 "Upload not found")
plan_get now (some u) = do
  refuse_if (has_expired u.expires_at now) 410 "Upload has expired"
  refuse_if (not u.completed) 404 "Upload not complete"
  accept u

-- _download_response
unfoldable pub download_response : Server → Upload → Bytes → Response
unfolding content_headers
download_response v u bytes = record {
  status = 200;
  headers =
      ("Tus-Resumable", tus_version)
      ∷ ("Content-Length", str (or_default u.upload_length u.offset))
      ∷ content_headers v u.metadata;
  body = stream bytes;
}

module _ (S : Storage) (v : Server) where
  abbrev serve : Upload → Result Bytes → Exec (World S.State) Response
  serve u (raise e) w = (raise e, w)
  serve u (ok bytes) w = (ok (download_response v u bytes), w)

  abbrev run_get : String → Checked Upload → Exec (World S.State) Response
  run_get id (refuse r) w = (ok r, w)
  run_get id (accept u) w = serve u (S.read_file w.store id) w

  unfoldable pub handle_get_download : ℕ → String → Exec (World S.State) Response
  unfolding plan_get download_response
  handle_get_download now id w = run_get id (plan_get now (S.get_upload w.store id)) w
