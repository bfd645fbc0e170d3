-- ===== src/Client/TusClient/Stored.antt =====
-- What `upload_file` leaves in the URL storage.
use resumable_upload.Prelude.{
  ℕ, ◌≡◌, refl, ◌∙◌, String, ◌==◌, eq_refl, true, false, Option, none, some, [], ◌∷◌, Bytes, length,
  Bool-cases, Option-cases, inl, inr,
}
use resumable_upload.Prelude.Dict.{Dict}
use resumable_upload.Client.Network.{Network}
use resumable_upload.Client.Outcome.{Outcome, done, raised, continue, pure, ◌>>◌}
use resumable_upload.Client.Protocol.{encode_metadata}
use resumable_upload.Client.TusClient.{
  TusClient, Creation, State, truthy, uploader_config, request, create_upload, opened_at,
  open_uploader,
}
use resumable_upload.Client.TusClient.Files.{
  is_gone, store, forget, finished, create_and_store, fresh, or_fresh, stored_url, resolve,
  run_upload, uploaded, upload_bytes,
}
use resumable_upload.Client.Uploader.{Session, start}
use resumable_upload.Client.Uploader.Upload.{upload}
use resumable_upload.Client.UrlStorage.{UrlStorage}
use resumable_upload.Client.UrlStorage.Maps.{IsUrlMap}

pub truthy-some : (o : Option String) (t : String) → truthy o ≡ some t → o ≡ some t
truthy-some none t e = cc e
truthy-some (some x) t e = elim (Bool-cases (x == "")) [
  | inl empty ↦ cc (rw empty at e)
  | inr full ↦ rw full at e
]

module _ (U : UrlStorage) (N : Network) (c : TusClient) where
  -- The two parts of the client's state that a request leaves alone.
  abbrev Same : State U N c → State U N c → Type 0
  Same s s' = (s'.urls ≡ s.urls) × (s'.announced ≡ s.announced)

  create_upload-Same :
      (metadata : Dict String) (r : Creation) (s : State U N c)
      → Same s (create_upload U N c metadata r s).1
  unfolding create_upload request
  create_upload-Same metadata r s = elim (Option-cases (encode_metadata c.b64encode metadata)) [
    | inl bad ↦ rw bad (refl, refl)
    | inr (entries, e) ↦ rw e (refl, refl)
  ]

  opened_at-Same :
      (p : Outcome Unit × Session N.State) (s : State U N c) → Same s (opened_at U N c p s).1
  opened_at-Same (done _, t) s = (refl, refl)
  opened_at-Same (raised e, t) s = (refl, refl)

  open_uploader-Same :
      (file : Bytes) (url : String) (s : State U N c) → Same s (open_uploader U N c file url s).1
  unfolding open_uploader
  open_uploader-Same file url s = opened_at-Same (start N (uploader_config c file url) s.net) s

module _ (U : UrlStorage) (N : Network) (c : TusClient) (fingerprint : String)
    (s0 : State U N c) where
  -- The entries of the other fingerprints are as they were in `s0`.
  abbrev pub OthersKept : State U N c → Type 0
  OthersKept s =
      (k : String) → (fingerprint == k) ≡ false → U.get_url k s.urls ≡ U.get_url k s0.urls

  -- What `upload_file` remembers: the URL that it returns is stored for the fingerprint, and was
  -- announced once.
  abbrev pub Remembers : Outcome (Option String) × State U N c → Type 0
  Remembers (done none, s) = OthersKept s
  Remembers (done (some url), s) =
      (U.get_url fingerprint s.urls ≡ some url) × (s.announced ≡ url ∷ s0.announced) × OthersKept s
  Remembers (raised e, s) = OthersKept s

  -- The URL is known, and not announced yet.
  abbrev Known : {A : Type 0} → Outcome (String × A) × State U N c → Type 0
  Known (done (url, _), s) =
      (U.get_url fingerprint s.urls ≡ some url) × (s.announced ≡ s0.announced) × OthersKept s
  Known (raised e, s) = OthersKept s

  module _ (M : IsUrlMap U) (stores : c.store_url ≡ true) (metadata : Dict String)
      (file : Bytes) where
    stored-Known :
        (p : Outcome String × State U N c)
        → p.1.announced ≡ s0.announced
        → OthersKept p.1
        → Known {A = Option (Session N.State)} (
            continue
              (λ url. pure (url, none))
              (continue (λ url. store U N c fingerprint url >> pure url) p))
    stored-Known (done url, s) quiet others = rw stores (
      rw (M.get-set fingerprint fingerprint url s.urls, eq_refl fingerprint) refl,
      quiet,
      λ k other. rw (M.get-set fingerprint k url s.urls, other) (others k other),
    )
    stored-Known (raised e, s) quiet others = others

    fresh-Known :
        (s : State U N c)
        → s.announced ≡ s0.announced
        → OthersKept s
        → Known (fresh U N c fingerprint metadata file s)
    unfolding create_and_store
    fresh-Known s quiet others =
        let r : Creation = record {
          file_size = length file;
          initial_data = none;
          extra_headers = [];
          defer_length = false;
        } in
        let (urls, announced) = create_upload-Same U N c metadata r s in
        stored-Known (create_upload U N c metadata r s) (announced ∙ quiet)
          (λ k other. rw urls (others k other))

    forget-OthersKept : (s : State U N c) → OthersKept s → OthersKept (forget U N c fingerprint s)
    forget-OthersKept s others k other =
        rw (M.get-remove fingerprint k s.urls, other) (others k other)

    or_fresh-Known :
        (url : String) (p : Outcome (Session N.State) × State U N c)
        → U.get_url fingerprint p.1.urls ≡ some url
        → p.1.announced ≡ s0.announced
        → OthersKept p.1
        → Known (or_fresh U N c fingerprint metadata file url p)
    or_fresh-Known url (done t, s) there quiet others = (there, quiet, others)
    or_fresh-Known url (raised e, s) there quiet others = elim (Bool-cases (is_gone e)) [
      | inl gone ↦
          rw gone (fresh-Known (forget U N c fingerprint s) quiet (forget-OthersKept s others))
      | inr still ↦ rw still others
    ]

    resolve-Known : Known (resolve U N c fingerprint metadata file s0)
    unfolding resolve
    resolve-Known = elim (Option-cases (stored_url U N c fingerprint metadata file s0)) [
      | inl nothing ↦ rw nothing (fresh-Known s0 refl (λ k other. refl))
      | inr (url, e) ↦
          let (urls, announced) = open_uploader-Same U N c file url s0 in
          let here : truthy (U.get_url fingerprint s0.urls) ≡ some url = rw stores at e in
          let there = truthy-some (U.get_url fingerprint s0.urls) url here in
          rw e (
            or_fresh-Known url (open_uploader U N c file url s0) (rw urls there) announced
              (λ k other. rw urls refl))
    ]

    finished-Remembers :
        (url : String) (q : Outcome (Option String) × Session N.State) (s : State U N c)
        → U.get_url fingerprint s.urls ≡ some url
        → s.announced ≡ url ∷ s0.announced
        → OthersKept s
        → Remembers (finished U N c url q s)
    finished-Remembers url (done none, t) s there told others = others
    finished-Remembers url (done (some _), t) s there told others = (there, told, others)
    finished-Remembers url (raised e, t) s there told others = others

    module _ (fuel : ℕ) (stop_at : Option ℕ) where
      opened-Remembers :
          (url : String) (p : Outcome (Session N.State) × State U N c)
          → U.get_url fingerprint p.1.urls ≡ some url
          → p.1.announced ≡ url ∷ s0.announced
          → OthersKept p.1
          → Remembers (continue (run_upload U N c fingerprint metadata file fuel stop_at url) p)
      opened-Remembers url (done t, s) there told others =
          finished-Remembers url (upload N (uploader_config c file url) fuel stop_at t) s there told
            others
      opened-Remembers url (raised e, s) there told others = others

      uploaded-Remembers :
          (p : Outcome (String × Option (Session N.State)) × State U N c)
          → Known p
          → Remembers (continue (uploaded U N c fingerprint metadata file fuel stop_at) p)
      uploaded-Remembers (done (url, none), s) (there, quiet, others) =
          let s1 : State U N c = record s { announced = url ∷ s.announced } in
          let (urls, announced) = open_uploader-Same U N c file url s1 in
          opened-Remembers url (open_uploader U N c file url s1) (rw urls there)
            (announced ∙ rw quiet refl) (λ k other. rw urls (others k other))
      uploaded-Remembers (done (url, some t), s) (there, quiet, others) =
          opened-Remembers url (done t, record s { announced = url ∷ s.announced }) there
            (rw quiet refl) others
      uploaded-Remembers (raised e, s) others = others

      -- With `store_url`, over any network and any URL storage that is a map: where the upload of a
      -- file returns, the URL that it returns is stored for the file's fingerprint, and was
      -- announced once; and however it ends, the URLs of all other fingerprints are as before.
      pub upload_bytes-Remembers :
          Remembers (upload_bytes U N c fingerprint metadata file fuel stop_at s0)
      unfolding upload_bytes
      upload_bytes-Remembers =
          uploaded-Remembers (resolve U N c fingerprint metadata file s0) resolve-Known
