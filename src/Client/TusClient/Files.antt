-- ===== src/Client/TusClient/Files.antt =====
-- resumable_upload/client/client.py: `upload_file` and `resume_upload`.
use resumable_upload.Prelude.{
  ℕ, String, Bool, ◌||◌, false, Option, none, some, [], if◌then◌else◌, eqb, Bytes, length,
}
use resumable_upload.Prelude.Dict.{Dict}
use resumable_upload.Client.Outcome.{
  Failure, communication, upload_failed, offset_mismatch, os_error, value_error, Outcome, done,
  raised, Exec, pure, ◌>>=◌, ◌>>◌,
}
use resumable_upload.Client.Network.{Network}
use resumable_upload.Client.TusClient.{
  TusClient, Source, Opened, open_source, with_filename, uploader_config, truthy, State,
  create_upload, open_uploader, announce,
}
use resumable_upload.Client.Uploader.{Session}
use resumable_upload.Client.Uploader.Upload.{upload}
use resumable_upload.Client.UrlStorage.{UrlStorage}

abbrev dropped : Option ℕ → Bool
dropped none = false
dropped (some code) = eqb code 404 || eqb code 410

-- A TusCommunicationError, of which TusUploadFailed is one, that says that the upload is gone.
abbrev pub is_gone : Failure → Bool
is_gone (communication code) = dropped code
is_gone (upload_failed code) = dropped code
is_gone offset_mismatch = false
is_gone os_error = false
is_gone value_error = false

module _ (U : UrlStorage) (N : Network) (c : TusClient) where
  abbrev pub store : String → String → Exec (State U N c) Unit
  store fingerprint url s =
      (done tt, (if c.store_url then record s { urls = U.set_url fingerprint url s.urls } else s))

  abbrev pub forget : String → State U N c → State U N c
  forget fingerprint s = record s { urls = U.remove_url fingerprint s.urls }

  -- `uploader.upload`; `none` means that its fuel ran out.
  abbrev pub finished :
      String
      → Outcome (Option String) × Session N.State
      → State U N c
      → Outcome (Option String) × State U N c
  finished url (done none, t) s = (done none, record s { net = t.net })
  finished url (done (some _), t) s = (done (some url), record s { net = t.net })
  finished url (raised e, t) s = (raised e, record s { net = t.net })

  module _ (fingerprint : String) (metadata : Dict String) (file : Bytes) where
    -- A new upload, whose URL is stored.
    unfoldable pub create_and_store : Exec (State U N c) String
    unfolding create_upload
    create_and_store =
        create_upload U N c metadata (record {
          file_size = length file;
          initial_data = none;
          extra_headers = [];
          defer_length = false;
        })
        >>= λ url. store fingerprint url >> pure url

    abbrev pub fresh : Exec (State U N c) (String × Option (Session N.State))
    fresh = create_and_store >>= λ url. pure (url, none)

    -- A stored URL that the server has dropped is forgotten, and a new upload created.
    abbrev pub or_fresh :
        String
        → Outcome (Session N.State) × State U N c
        → Outcome (String × Option (Session N.State)) × State U N c
    or_fresh url (done t, s) = (done (url, some t), s)
    or_fresh url (raised e, s) = if is_gone e then fresh (forget fingerprint s) else (raised e, s)

    abbrev pub resolved : Option String → Exec (State U N c) (String × Option (Session N.State))
    resolved none s = fresh s
    resolved (some url) s = or_fresh url (open_uploader U N c file url s)

    -- The stored URL, with `store_url`.
    abbrev pub stored_url : State U N c → Option String
    stored_url s = if c.store_url then truthy (U.get_url fingerprint s.urls) else none

    -- The stored URL with its uploader, or the URL of a new upload.
    unfoldable pub resolve : Exec (State U N c) (String × Option (Session N.State))
    unfolding create_and_store open_uploader
    resolve s = resolved (stored_url s) s

    abbrev pub ready : String → Option (Session N.State) → Exec (State U N c) (Session N.State)
    ready url none = open_uploader U N c file url
    ready url (some t) = pure t

    abbrev pub run_upload :
        ℕ → Option ℕ → String → Session N.State → Exec (State U N c) (Option String)
    run_upload fuel stop_at url t s =
        finished url (upload N (uploader_config c file url) fuel stop_at t) s

    abbrev pub uploaded :
        ℕ → Option ℕ → String × Option (Session N.State) → Exec (State U N c) (Option String)
    uploaded fuel stop_at (url, t) =
        announce U N c url >> ready url t >>= run_upload fuel stop_at url

    -- upload_file with parallel_uploads = 1, once the file is there
    unfoldable pub upload_bytes : ℕ → Option ℕ → Exec (State U N c) (Option String)
    unfolding resolve open_uploader uploader_config upload
    upload_bytes fuel stop_at = resolve >>= uploaded fuel stop_at

  abbrev upload_opened :
      String → Dict String → ℕ → Option ℕ → Outcome Opened → Exec (State U N c) (Option String)
  upload_opened fingerprint metadata fuel stop_at (raised e) s = (raised e, s)
  upload_opened fingerprint metadata fuel stop_at (done f) s =
      upload_bytes fingerprint (with_filename f.filename metadata) f.bytes fuel stop_at s

  unfoldable pub upload_file :
      Source → String → Dict String → ℕ → Option ℕ → Exec (State U N c) (Option String)
  unfolding upload_bytes
  upload_file source fingerprint metadata fuel stop_at s =
      upload_opened fingerprint metadata fuel stop_at (open_source source) s

  abbrev resume_opened : String → ℕ → Outcome Opened → Exec (State U N c) (Option String)
  resume_opened url fuel (raised e) s = (raised e, s)
  resume_opened url fuel (done f) s =
      (open_uploader U N c f.bytes url >>= λ t s'.
      finished url (upload N (uploader_config c f.bytes url) fuel none t) s')
        s

  unfoldable pub resume_upload : Source → String → ℕ → Exec (State U N c) (Option String)
  unfolding open_uploader uploader_config upload
  resume_upload source url fuel s = resume_opened url fuel (open_source source) s
