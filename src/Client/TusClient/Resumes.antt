-- ===== src/Client/TusClient/Resumes.antt =====
-- An upload that is resumed by its stored URL.
use resumable_upload.Prelude.{
  ℕ, ◌+◌, ◌≤◌, ◌<◌, ◌≡◌, refl, String, ◌==◌, true, false, Option, none, some, Bytes, take, ◌∷◌,
}
use resumable_upload.Prelude.Dict.{Dict}
use resumable_upload.Client.Contract.{IsTusServer, IsReliable}
use resumable_upload.Client.Network.{Network}
use resumable_upload.Client.Outcome.{Outcome, done, raised, continue}
use resumable_upload.Client.TusClient.{TusClient, State, uploader_config, opened_at, open_uploader}
use resumable_upload.Client.TusClient.Files.{
  stored_url, finished, or_fresh, resolve, uploaded, upload_bytes,
}
use resumable_upload.Client.Uploader.{Session, start}
use resumable_upload.Client.Uploader.Completes.{Completes, run-Completes}
use resumable_upload.Client.Uploader.Upload.{stop_offset, upload}
use resumable_upload.Client.UrlStorage.{UrlStorage}

module _ (U : UrlStorage) (N : Network) (c : TusClient) (fingerprint : String)
    (metadata : Dict String) (file : Bytes) (url : String) (held : N.State → Bytes) where
  -- The upload returns the URL, and the server holds the file up to the stop; the URL storage is as
  -- before.
  abbrev pub Resumes : ℕ → U.State → Outcome (Option String) × State U N c → Type 0
  Resumes max_offset urls (done none, s) = ⊥
  Resumes max_offset urls (done (some url'), s) =
      (url' ≡ url) × (s.urls ≡ urls) × (held s.net ≡ take max_offset file)
  Resumes max_offset urls (raised e, s) = ⊥

  finished-Resumes :
      (max_offset : ℕ) (q : Outcome (Option String) × Session N.State) (s : State U N c)
      → Completes N (uploader_config c file url) held max_offset q
      → Resumes max_offset s.urls (finished U N c url q s)
  unfolding uploader_config
  finished-Resumes max_offset (done none, t) s fails = absurd fails
  finished-Resumes max_offset (done (some _), t) s (_, h) = (refl, refl, h)
  finished-Resumes max_offset (raised e, t) s fails = absurd fails

  opened-Resumes :
      (max_offset fuel : ℕ) (stop_at : Option ℕ) (p : Outcome Unit × Session N.State)
      (s : State U N c)
      → Completes N
          (uploader_config c file url)
          held
          max_offset
          (continue (λ _. upload N (uploader_config c file url) fuel stop_at) p)
      → Resumes max_offset s.urls (
          continue
            (uploaded U N c fingerprint metadata file fuel stop_at)
            (or_fresh U N c fingerprint metadata file url (opened_at U N c p s)))
  opened-Resumes max_offset fuel stop_at (done _, t) s completes =
      finished-Resumes max_offset (upload N (uploader_config c file url) fuel stop_at t)
        (record s { announced = url ∷ s.announced; net = t.net }) completes
  opened-Resumes max_offset fuel stop_at (raised e, t) s fails = absurd fails

  module _ (Good : N.State → Type 0) (T : IsTusServer N (uploader_config c file url) held)
      (F : IsReliable N (uploader_config c file url) held Good) (direct : c.via_proxy url ≡ false)
      (positive : 0 < c.chunk_size) (stores : c.store_url ≡ true) where
    -- With `store_url`, where a URL is stored for the file's fingerprint and leads to an upload of
    -- which the server holds the first `k` bytes of the file, over a network that loses nothing, to
    -- a server that accepts what continues the file: with more fuel than bytes are left up to the
    -- stop, the upload returns that URL, without a new upload in the URL storage, and the server
    -- then holds the file exactly up to the stop.
    pub upload_bytes-Resumes :
        (k fuel : ℕ) (stop_at : Option ℕ) (s : State U N c)
        → U.get_url fingerprint s.urls ≡ some url
        → (url == "") ≡ false
        → Good s.net
        → held s.net ≡ take k file
        → k ≤ stop_offset N (uploader_config c file url) stop_at
        → stop_offset N (uploader_config c file url) stop_at < k + fuel
        → Resumes
            (stop_offset N (uploader_config c file url) stop_at)
            s.urls
            (upload_bytes U N c fingerprint metadata file fuel stop_at s)
    unfolding upload_bytes resolve open_uploader uploader_config
    upload_bytes-Resumes k fuel stop_at s there some_url good before low enough =
        let cfg = uploader_config c file url in
        let stored : stored_url U N c fingerprint metadata file s ≡ some url =
          rw (stores, there, some_url) refl in
        rw stored (
          opened-Resumes (stop_offset N cfg stop_at) fuel stop_at (start N cfg s.net) s (
            run-Completes N cfg held Good T F direct positive refl k fuel stop_at s.net good before
              low enough))
