-- ===== src/Client/UrlStorage.antt =====
-- resumable_upload/url_storage: the interface of base.py and its three implementations. A section
-- under a lock, a statement of SQL, and a replacement of the file are one step each.
pub mod Maps
use resumable_upload.Prelude.{◌≡◌, String, ◌==◌, Option, none, some, List, [], ◌∷◌, if◌then◌else◌}
use resumable_upload.Prelude.Dict
use resumable_upload.Prelude.Dict.{Dict}

-- URLStorage
pub record UrlStorage : Type 1 where
  pub State : Type 0
  pub get_url : String → State → Option String
  pub set_url : String → String → State → State
  pub remove_url : String → State → State

-- InMemoryURLStorage
abbrev pub memory_url_storage : UrlStorage
memory_url_storage = record {
  State = Dict String;
  get_url = λ fingerprint urls. Dict.get urls fingerprint;
  set_url = λ fingerprint url urls. Dict.put urls fingerprint url;
  remove_url = λ fingerprint urls. Dict.remove urls fingerprint;
}

-- A row of `url_map`.
pub record UrlRow : Type 0 where
  pub fingerprint : String
  pub url : String

-- SELECT url FROM url_map WHERE fingerprint = ?
unfoldable pub select_url : String → List UrlRow → Option String
select_url fp [] = none
select_url fp (r ∷ rows) = if r.fingerprint == fp then some r.url else select_url fp rows

-- INSERT ... ON CONFLICT(fingerprint) DO UPDATE
unfoldable pub upsert_url : String → String → List UrlRow → List UrlRow
upsert_url fp url [] = record { fingerprint = fp; url = url } ∷ []
upsert_url fp url (r ∷ rows) =
    if r.fingerprint == fp then record r { url = url } ∷ rows else r ∷ upsert_url fp url rows

-- DELETE FROM url_map WHERE fingerprint = ?
unfoldable pub delete_url : String → List UrlRow → List UrlRow
delete_url fp [] = []
delete_url fp (r ∷ rows) =
    let rest = delete_url fp rows in if r.fingerprint == fp then rest else r ∷ rest

-- SQLiteURLStorage
abbrev pub sqlite_url_storage : UrlStorage
sqlite_url_storage = record {
  State = List UrlRow;
  get_url = select_url;
  set_url = upsert_url;
  remove_url = delete_url;
}

-- The module json on an object of texts; `none` is a JSONDecodeError.
pub record Json : Type 0 where
  pub loads : String → Option (Dict String)
  pub dumps : Dict String → String

module _ (json : Json) where
  abbrev loaded : Option (Dict String) → Dict String
  loaded none = []
  loaded (some urls) = urls

  -- _load_data, of the file's text or of no file
  unfoldable pub load_data : Option String → Dict String
  load_data none = []
  load_data (some text) = loaded (json.loads text)

  -- _save_data
  abbrev pub save_data : Dict String → Option String
  save_data urls = some (json.dumps urls)

  unfoldable pub set_url : String → String → Option String → Option String
  unfolding load_data
  set_url fingerprint url file = save_data (Dict.put (load_data file) fingerprint url)

  -- The file is left alone where the fingerprint is not in it.
  unfoldable pub remove_url : String → Option String → Option String
  unfolding load_data
  remove_url fingerprint file =
      if Dict.contains (load_data file) fingerprint
      then save_data (Dict.remove (load_data file) fingerprint)
      else file

  -- FileURLStorage
  abbrev pub file_url_storage : UrlStorage
  file_url_storage = record {
    State = Option String;
    get_url = λ fingerprint file. Dict.get (load_data file) fingerprint;
    set_url = set_url;
    remove_url = remove_url;
  }
