-- ===== src/Client/UrlStorage/Maps.antt =====
-- The URL storages are maps from fingerprints to URLs.
use resumable_upload.Prelude.{
  ◌≡◌, refl, String, ◌==◌, eq_iff, Option, none, some, List, [], ◌∷◌, if◌then◌else◌, arith,
  Bool-cases, Option-cases, inl, inr,
}
use resumable_upload.Prelude.Dict
use resumable_upload.Prelude.Dict.{Dict, NodupKeys}
use resumable_upload.Client.UrlStorage.{
  UrlStorage, memory_url_storage, UrlRow, select_url, upsert_url, delete_url, sqlite_url_storage,
  Json, load_data, set_url, remove_url, file_url_storage,
}

-- What the client relies on: a URL is found as it was stored last.
pub record IsUrlMap (U : UrlStorage) : Type 0 where
  pub get-set :
      (j k url : String) (s : U.State)
      → U.get_url k (U.set_url j url s) ≡ (if j == k then some url else U.get_url k s)
  pub get-remove :
      (j k : String) (s : U.State)
      → U.get_url k (U.remove_url j s) ≡ (if j == k then none else U.get_url k s)

pub memory_url_storage-IsUrlMap : IsUrlMap memory_url_storage
memory_url_storage-IsUrlMap = record {
  get-set = λ j k url d. Dict.get-put d j k url;
  get-remove = λ j k d. Dict.get-remove d j k;
}

select-upsert :
    (j k url : String) (rows : List UrlRow)
    → select_url k (upsert_url j url rows) ≡ (if j == k then some url else select_url k rows)
unfolding select_url upsert_url
select-upsert j k url [] = refl
select-upsert j k url (r ∷ rows) =
    ground (
      arith,
      eq_iff j k,
      eq_iff r.fingerprint j,
      eq_iff r.fingerprint k,
      select-upsert j k url rows,
    )

select-delete :
    (j k : String) (rows : List UrlRow)
    → select_url k (delete_url j rows) ≡ (if j == k then none else select_url k rows)
unfolding select_url delete_url
select-delete j k [] = ground arith
select-delete j k (r ∷ rows) =
    ground
      (arith, eq_iff j k, eq_iff r.fingerprint j, eq_iff r.fingerprint k, select-delete j k rows)

pub sqlite_url_storage-IsUrlMap : IsUrlMap sqlite_url_storage
sqlite_url_storage-IsUrlMap = record { get-set = select-upsert; get-remove = select-delete }

-- The dict of a text has each key once, and a dict is read as it was written.
pub record IsRoundtrip (json : Json) : Type 0 where
  pub distinct : (t : String) (d : Dict String) → json.loads t ≡ some d → NodupKeys d
  pub kept : (d : Dict String) → NodupKeys d → json.loads (json.dumps d) ≡ some d

module _ (json : Json) (good : IsRoundtrip json) where
  load_data-NodupKeys : (file : Option String) → NodupKeys (load_data json file)
  unfolding load_data
  load_data-NodupKeys none = tt
  load_data-NodupKeys (some t) = elim (Option-cases (json.loads t)) [
    | inl bad ↦ rw bad tt
    | inr (d, e) ↦ rw e (good.distinct t d e)
  ]

  load-save : (d : Dict String) → NodupKeys d → load_data json (some (json.dumps d)) ≡ d
  unfolding load_data
  load-save d distinct = rw (good.kept d distinct) refl

  load-set :
      (j url : String) (file : Option String)
      → load_data json (set_url json j url file) ≡ Dict.put (load_data json file) j url
  unfolding set_url
  load-set j url file =
      load-save (Dict.put (load_data json file) j url)
        (Dict.put-NodupKeys (load_data json file) j url (load_data-NodupKeys file))

  get-remove_url :
      (j k : String) (file : Option String)
      → Dict.get (load_data json (remove_url json j file)) k
        ≡ (if j == k then none else Dict.get (load_data json file) k)
  unfolding remove_url
  get-remove_url j k file = elim (Bool-cases (Dict.contains (load_data json file) j)) [
    | inl there ↦
        rw
          (
            there,
            load-save (Dict.remove (load_data json file) j)
                (Dict.remove-NodupKeys (load_data json file) j (load_data-NodupKeys file)),
          )
          (Dict.get-remove (load_data json file) j k)
    | inr missing ↦ rw missing (ground (arith, eq_iff j k, missing))
  ]

  -- The JSON file is a map from fingerprints to URLs, for every text that it may hold, and where it
  -- is missing, if json reads back what it writes: a URL is found as it was stored last.
  pub file_url_storage-IsUrlMap : IsUrlMap (file_url_storage json)
  file_url_storage-IsUrlMap = record {
    get-set = λ j k url file. rw (load-set j url file) (Dict.get-put (load_data json file) j k url);
    get-remove = get-remove_url;
  }
