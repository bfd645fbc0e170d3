-- ===== src/Client/TusClient/Parallel.antt =====
-- resumable_upload/client/parallel.py. The uploads of the pool run one after the other, in the
-- order of the slices; one that raises does not keep the later ones from running.
use resumable_upload.Prelude.{
  ℕ, ◌-◌, String, Bool, true, false, Option, none, some, List, [], ◌∷◌, if◌then◌else◌, eqb,
  is_empty, Bytes, length, take, drop,
}
use resumable_upload.Prelude.Dict.{Dict}
use resumable_upload.Client.Outcome.{
  value_error, Outcome, done, raised, Exec, pure, throw, ◌>>=◌, ◌>>◌,
}
use resumable_upload.Client.Network.{Network}
use resumable_upload.Client.Protocol.{UploadInfo, split_boundaries, partials_key}
use resumable_upload.Client.TusClient.{
  TusClient, State, truthy, uploader_config, with_filename, create_upload, open_uploader,
}
use resumable_upload.Client.TusClient.Concatenation.{create_final_upload}
use resumable_upload.Client.TusClient.Files.{is_gone, upload_bytes, forget}
use resumable_upload.Client.TusClient.Queries.{get_upload_info}
use resumable_upload.Client.Uploader.{Session}
use resumable_upload.Client.Uploader.Upload.{upload}
use resumable_upload.Client.UrlStorage.{UrlStorage}

-- json on a list of texts; `none` is a JSONDecodeError.
pub record PartialsJson : Type 0 where
  pub loads : String → Option (List String)
  pub dumps : List String → String

-- A slice whose uploader is open.
pub record OpenSlice (Net : Type 0) : Type 0 where
  pub url : String
  pub bytes : Bytes
  pub session : Session Net

abbrev out_of_fuel : Outcome Bool → Outcome Bool
out_of_fuel (raised e) = raised e
out_of_fuel (done _) = done false

module _ (U : UrlStorage) (N : Network) (c : TusClient) (json : PartialsJson)
    (partial_metadata : Dict String) where
  abbrev create_slice : Bytes → Exec (State U N c) (OpenSlice N.State)
  create_slice bytes =
      create_upload U N c partial_metadata (record {
        file_size = length bytes;
        initial_data = none;
        extra_headers = ("Upload-Concat", "partial") ∷ [];
        defer_length = false;
      })
      >>= λ url. open_uploader U N c bytes url >>= λ t.
          pure (record { url = url; bytes = bytes; session = t })

  -- A partial that the server has dropped is created again.
  abbrev or_created :
      String
      → Bytes
      → Outcome (Session N.State) × State U N c
      → Outcome (OpenSlice N.State) × State U N c
  or_created url bytes (done t, s) = (done (record { url = url; bytes = bytes; session = t }), s)
  or_created url bytes (raised e, s) = if is_gone e then create_slice bytes s else (raised e, s)

  unfoldable pub open_partial : Option String → Bytes → Exec (State U N c) (OpenSlice N.State)
  unfolding create_upload open_uploader
  open_partial none bytes s = create_slice bytes s
  open_partial (some url) bytes s = or_created url bytes (open_uploader U N c bytes url s)

  abbrev first_url : List String → Option String
  first_url [] = none
  first_url (url ∷ urls) = truthy (some url)

  abbrev other_urls : List String → List String
  other_urls [] = []
  other_urls (url ∷ urls) = urls

  -- All slices are opened before any byte is sent.
  unfoldable pub open_slices :
      Bytes → List (ℕ × ℕ) → List String → Exec (State U N c) (List (OpenSlice N.State))
  unfolding open_partial
  open_slices file [] stored = pure []
  open_slices file ((lo, hi) ∷ ranges) stored =
      open_partial (first_url stored) (take (hi - lo) (drop lo file)) >>= λ p.
      open_slices file ranges (other_urls stored) >>= λ ps. pure (p ∷ ps)

  unfoldable pub slice_urls : List (OpenSlice N.State) → List String
  slice_urls [] = []
  slice_urls (p ∷ ps) = p.url ∷ slice_urls ps

  -- The first exception, in the order of the slices; `false` means that the fuel of one ran out.
  abbrev slice_result : Outcome (Option String) → Outcome Bool → Outcome Bool
  slice_result (raised e) rest = raised e
  slice_result (done none) rest = out_of_fuel rest
  slice_result (done (some _)) rest = rest

  unfoldable pub run_slices : ℕ → List (OpenSlice N.State) → Exec (State U N c) Bool
  unfolding uploader_config upload
  run_slices fuel [] s = (done true, s)
  run_slices fuel (p ∷ ps) s =
      let (r, t) =
        upload N (uploader_config c p.bytes p.url) fuel none (record p.session { net = s.net }) in
      let (rest, s') = run_slices fuel ps (record s { net = t.net }) in (slice_result r rest, s')

  abbrev set : String → String → Exec (State U N c) Unit
  set key url s = (done tt, record s { urls = U.set_url key url s.urls })

  abbrev remember_partials : String → List String → Exec (State U N c) Unit
  remember_partials fingerprint urls s =
      if c.store_url then set (partials_key fingerprint) (json.dumps urls) s else (done tt, s)

  abbrev remember_final : String → String → Exec (State U N c) Unit
  remember_final fingerprint url s =
      if c.store_url
      then (set fingerprint url >> λ s'. (done tt, forget U N c (partials_key fingerprint) s')) s
      else (done tt, s)

  abbrev merged :
      String → Dict String → List (OpenSlice N.State) → Bool → Exec (State U N c) (Option String)
  merged fingerprint metadata ps false = pure none
  merged fingerprint metadata ps true =
      create_final_upload U N c (slice_urls ps) metadata >>= λ url.
      remember_final fingerprint url >> pure (some url)

  -- The uploads and the merge, from the URLs of an earlier attempt.
  unfoldable pub upload_slices :
      ℕ → ℕ → Bytes → String → Dict String → List String → Exec (State U N c) (Option String)
  unfolding open_slices slice_urls run_slices split_boundaries create_final_upload
  upload_slices parts fuel file fingerprint metadata stored =
      open_slices file (split_boundaries (length file) parts) stored >>= λ ps.
      remember_partials fingerprint (slice_urls ps)
      >> run_slices fuel ps
      >>= merged fingerprint metadata ps

  -- The partials of an earlier attempt that was split in the same way; `none` is a ValueError.
  abbrev same_split : ℕ → List String → List String
  same_split parts urls = if eqb (length urls) parts then urls else []

  abbrev decoded_partials : Option String → Option (List String)
  decoded_partials none = some []
  decoded_partials (some t) = json.loads t

  abbrev with_partials :
      ℕ
      → ℕ
      → Bytes
      → String
      → Dict String
      → Option (List String)
      → Exec (State U N c) (Option String)
  with_partials parts fuel file fingerprint metadata none = throw value_error
  with_partials parts fuel file fingerprint metadata (some urls) =
      upload_slices parts fuel file fingerprint metadata
        (same_split (length (split_boundaries (length file) parts)) urls)

  abbrev from_partials : ℕ → ℕ → Bytes → String → Dict String → Exec (State U N c) (Option String)
  from_partials parts fuel file fingerprint metadata s =
      with_partials parts fuel file fingerprint metadata
        (if c.store_url
          then decoded_partials (truthy (U.get_url (partials_key fingerprint) s.urls))
          else some [])
        s

  -- A stored final URL that the server still knows is the result.
  abbrev or_partials :
      ℕ
      → ℕ
      → Bytes
      → String
      → Dict String
      → String
      → Outcome UploadInfo × State U N c
      → Outcome (Option String) × State U N c
  or_partials parts fuel file fingerprint metadata url (done _, s) = (done (some url), s)
  or_partials parts fuel file fingerprint metadata url (raised e, s) =
      if is_gone e
      then from_partials parts fuel file fingerprint metadata (forget U N c fingerprint s)
      else (raised e, s)

  abbrev from_stored :
      ℕ → ℕ → Bytes → String → Dict String → Option String → Exec (State U N c) (Option String)
  from_stored parts fuel file fingerprint metadata none s =
      from_partials parts fuel file fingerprint metadata s
  from_stored parts fuel file fingerprint metadata (some url) s =
      or_partials parts fuel file fingerprint metadata url (get_upload_info U N c url s)

  -- _upload_parallel; an empty file is uploaded in one part.
  unfoldable pub upload_parallel :
      ℕ → ℕ → Bytes → String → String → Dict String → Exec (State U N c) (Option String)
  unfolding upload_slices get_upload_info split_boundaries upload_bytes
  upload_parallel parts fuel file basename fingerprint metadata s =
      let metadata' = with_filename (some basename) metadata in
      if is_empty file
      then upload_bytes U N c fingerprint metadata' file fuel none s
      else from_stored parts fuel file fingerprint metadata'
          (if c.store_url then truthy (U.get_url fingerprint s.urls) else none) s
