-- ===== src/Tests/EndToEnd.antt =====
-- An upload of five bytes, of which the server has two, over a link that loses an answer and a
-- request.
use resumable_upload.Prelude.{◌≡◌, refl, true, false, none, some, [], ◌∷◌, Bytes, take, arith}
use resumable_upload.Prelude.Dict
use resumable_upload.Headers.{validate_upload_id, uuid_rest, hex_run, is_hex, dash}
use resumable_upload.Server.Request.{route, patch, head}
use resumable_upload.Sqlite.{fits_integer, get_upload, read_file, read_ids}
use resumable_upload.Sqlite.Lawful.{sqlite_storage-IsLawful}
use resumable_upload.Client.Contract.{IsTusServer}
use resumable_upload.Client.Uploader.Delivers.{run, run-Finishes}
use resumable_upload.Client.Uploader.Uploads.{Finishes}
use resumable_upload.EndToEnd.{IsPlainServer, IsReady}
use resumable_upload.Client.Uploader.Completes.{Completes}
use resumable_upload.EndToEnd.Completes.{IsWilling, IsGood, upload-Completes}
use resumable_upload.EndToEnd.Free.{IsUnlocked, memory_backend-IsNeverBusy}
use resumable_upload.EndToEnd.Delivers.{upload_delivers}
use resumable_upload.EndToEnd.Lawful.{link-IsTusServer}
use resumable_upload.EndToEnd.Link.{
  delivered, request_lost, answer_lost, Options, plain_uploader, Setup, Ends, held, link,
}
use resumable_upload.Tests.Data.{v, S, file_path}
use resumable_upload.Tests.Serving.{uuid, path, c, L, stored, s, u}

abbrev pub file : Bytes
file = 1 ∷ 2 ∷ 3 ∷ 4 ∷ 5 ∷ []

abbrev pub options : Options
options = record {
  url = "http://localhost/files/0123abcd-0123-abcd-0123-0123456789ab";
  file = file;
  chunk_size = 2;
  max_retries = 3;
  retry_delay = 1000000;
  add_request_id = true;
  on_should_retry = none;
}

pub plain : IsPlainServer v
plain = record {
  no_expiry = refl;
  no_cors = refl;
  no_request_hook = refl;
  no_chunk_hook = refl;
  no_complete_hook = refl;
}

pub to_patch : route v "PATCH" path ≡ patch uuid
unfolding route validate_upload_id uuid_rest hex_run dash is_hex
to_patch = refl

pub to_head : route v "HEAD" path ≡ head uuid
unfolding route validate_upload_id uuid_rest hex_run dash is_hex
to_head = refl

abbrev pub setup : Setup
setup = record {
  storage = S;
  can_store = fits_integer;
  lawful = sqlite_storage-IsLawful file_path;
  locks = L;
  server = v;
  plain = plain;
  context = c;
  id = uuid;
  path = path;
  to_patch = to_patch;
  to_head = to_head;
  request_id = "r";
  stopped = false;
}

pub ready : IsReady S uuid stored
unfolding get_upload read_file Dict.get read_ids
ready = record { upload = u; found = refl; whole = refl; not_final = refl; covered = omega arith }

abbrev ends : Ends setup
ends = record {
  site = s;
  fates = delivered ∷ answer_lost false ∷ request_lost true ∷ [];
  ready = ready;
}

pub two_held : held setup ends ≡ take 2 file
unfolding get_upload read_file Dict.get read_ids
two_held = refl

upload_delivers_example :
    Finishes
      (link setup)
      (plain_uploader options)
      (held setup)
      5
      (run (link setup) (plain_uploader options) 4 none ends)
upload_delivers_example =
    upload_delivers setup options 2 4 none ends (omega arith) two_held (omega arith) (omega arith)

run-Finishes_example :
    Finishes
      (link setup)
      (plain_uploader options)
      (held setup)
      4
      (run (link setup) (plain_uploader options) 3 (some 4) ends)
run-Finishes_example =
    run-Finishes (link setup) (plain_uploader options) (held setup) (link-IsTusServer setup options)
      refl (omega arith) refl 2 3 (some 4) ends two_held (omega arith) (omega arith)

link-IsTusServer_example : IsTusServer (link setup) (plain_uploader options) (held setup)
link-IsTusServer_example = link-IsTusServer setup options

-- The same, over a link that loses nothing.
abbrev pub sure_ends : Ends setup
sure_ends = record ends { fates = [] }

pub willing : IsWilling setup options (IsUnlocked uuid)
willing = record {
  room = record { for_chunk = λ on. omega (arith, on); for_body = λ _. omega arith };
  never_busy =
      memory_backend-IsNeverBusy uuid 30 5
        (record { now = 1; token = "t"; after = 2; others = λ h. h }) [];
}

pub good : IsGood setup options (IsUnlocked uuid) sure_ends
unfolding get_upload Dict.get read_ids
good = record { no_fates = refl; free = refl; opened = (refl, refl, λ done. cc done) }

upload-Completes_example :
    Completes
      (link setup)
      (plain_uploader options)
      (held setup)
      5
      (run (link setup) (plain_uploader options) 4 none sure_ends)
upload-Completes_example =
    upload-Completes setup options (IsUnlocked uuid) willing 2 4 none sure_ends (omega arith) good
      two_held (omega arith) (omega arith)
