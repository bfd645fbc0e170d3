-- ===== src/Tests/Clients.antt =====
-- A client that has stored the URL of an upload of which the server has two bytes of five.
use resumable_upload.Prelude.{◌≡◌, refl, true, false, none, some, [], ◌∷◌, arith}
use resumable_upload.Prelude.Dict
use resumable_upload.Prelude.Dict.{Dict}
use resumable_upload.Client.Protocol.{flag}
use resumable_upload.Client.TusClient.{TusClient, State, uploader_config}
use resumable_upload.Client.TusClient.Files.{upload_bytes}
use resumable_upload.Client.TusClient.Resumes.{Resumes, upload_bytes-Resumes}
use resumable_upload.Client.TusClient.Stored.{Remembers, upload_bytes-Remembers}
use resumable_upload.Client.UrlStorage.{UrlStorage, memory_url_storage}
use resumable_upload.Client.UrlStorage.Maps.{memory_url_storage-IsUrlMap}
use resumable_upload.EndToEnd.Completes.{IsGood, link-IsReliable}
use resumable_upload.EndToEnd.Free.{IsUnlocked}
use resumable_upload.EndToEnd.Lawful.{link-IsTusServer}
use resumable_upload.EndToEnd.Link.{held, link}
use resumable_upload.Tests.EndToEnd.{file, options, setup, sure_ends, two_held, willing, good}
use resumable_upload.Tests.Serving.{uuid}

abbrev client : TusClient
client = record {
  url = "http://localhost/files";
  chunk_size = 2;
  checksum = flag false;
  store_url = true;
  headers = [];
  max_retries = 3;
  retry_delay = 1000000;
  override_patch_method = false;
  add_request_id = true;
  before_request = none;
  on_should_retry = none;
  digest = λ _ _. none;
  b64encode = λ t. t;
  b64decode = λ t. some t;
  urljoin = λ base t. t;
  via_proxy = λ _. false;
}

abbrev memory : UrlStorage
memory = memory_url_storage

abbrev before : State memory (link setup) client
before = record {
  urls = ("a", "http://localhost/b") ∷ ("f", options.url) ∷ [];
  announced = [];
  net = sure_ends;
}

stored : memory.get_url "f" before.urls ≡ some options.url
unfolding Dict.get
stored = refl

upload_bytes-Remembers_example :
    Remembers memory
      (link setup)
      client
      "f"
      before
      (upload_bytes memory (link setup) client "f" [] file 4 none before)
upload_bytes-Remembers_example =
    upload_bytes-Remembers memory (link setup) client "f" before memory_url_storage-IsUrlMap refl []
      file 4 none

upload_bytes-Resumes_example :
    Resumes memory
      (link setup)
      client
      "f"
      []
      file
      options.url
      (held setup)
      5
      before.urls
      (upload_bytes memory (link setup) client "f" [] file 4 none before)
unfolding uploader_config
upload_bytes-Resumes_example =
    upload_bytes-Resumes memory (link setup) client "f" [] file options.url (held setup)
      (IsGood setup options (IsUnlocked uuid)) (link-IsTusServer setup options)
      (link-IsReliable setup options (IsUnlocked uuid) willing) refl (omega arith) refl 2 4 none
      before stored refl good two_held (omega arith) (omega arith)
