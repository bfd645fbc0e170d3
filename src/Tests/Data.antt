-- ===== src/Tests/Data.antt =====
-- The server and the uploads of the tests.
use resumable_upload.Prelude.{String, ◌<>◌, false, none, some, [], ◌∷◌, pos}
use resumable_upload.Prelude.Dict.{Dict}
use resumable_upload.Headers.{decoded, no_origins}
use resumable_upload.Storage.{Storage}
use resumable_upload.Server.{Server, Library, World}
use resumable_upload.Sqlite.{Row, Db}
use resumable_upload.Sqlite.Backend.{sqlite_storage}

abbrev pub library : Library
library = record {
  b64decode_text = λ t. decoded t;
  b64encode_text = λ t. t;
  b64decode_hex = λ t. some t;
  hexdigest = λ algorithm b. "";
  url_path = λ t. t;
  quote = λ t. t;
  format_expiry = λ t. "";
}

abbrev pub v : Server
v = record {
  library = library;
  base_path = "/files";
  max_size = 100;
  max_chunk_size = 0;
  upload_expiry = none;
  cors_allow_origins = no_origins;
  cors_allow_credentials = false;
  cors_max_age = none;
  cleanup_interval = 0;
  enable_downloads = false;
  behind_proxy = false;
  location_base_url = none;
  disable_termination = false;
  disable_concatenation = false;
  extensions = [];
  checksums = "sha1" ∷ [];
  on_incoming_request = none;
  on_upload_create = none;
  on_upload_complete = none;
  on_upload_terminate = none;
  on_chunk_received = none;
  on_before_terminate = none;
}

abbrev pub file_path : String → String
file_path id = "uploads/" <> id

abbrev pub S : Storage
S = sqlite_storage file_path

-- An upload of five bytes, of which two are there.
abbrev pub started : Row
started = record {
  upload_length = pos 5;
  offset = 2;
  metadata = [];
  completed = false;
  expires_at = none;
  is_partial = false;
  concat_partial_ids = none;
}

abbrev pub one_upload : Db
one_upload = record { rows = ("a", started) ∷ []; files = ("a", 1 ∷ 2 ∷ []) ∷ [] }

abbrev pub no_uploads : Db
no_uploads = record { rows = []; files = [] }

abbrev pub in_world : Db → World Db
in_world s = record { store = s; metrics = none; calls = [] }

abbrev pub patch_headers : Dict String
patch_headers = ("content-type", "application/offset+octet-stream") ∷ ("upload-offset", "2") ∷ []
