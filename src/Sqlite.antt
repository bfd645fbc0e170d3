-- ===== src/Sqlite.antt =====
-- resumable_upload/storage/sqlite_storage.py: rows of the table `uploads` and the files beside it.
pub mod Like
pub mod Concat
pub mod Backend
pub mod Frame
pub mod Lawful
pub mod Pending
pub mod Contents
pub mod Assembled
pub mod Cleanup
use resumable_upload.Prelude.{
  ℕ, zero, suc, ◌+◌, ◌^◌, String, ◌<>◌, ◌==◌, Bool, true, false, not, ◌&&◌, ◌||◌, Option, none,
  some, List, [], ◌∷◌, ◌++◌, if◌then◌else◌, eqb, leb, ltb, Bytes, length, is_empty, is_some, ℤ, pos,
  negsuc, split, join,
}
use resumable_upload.Prelude.Dict
use resumable_upload.Prelude.Dict.{Dict}
use resumable_upload.Exec.{
  Error, value_error, integrity_error, os_error, overflow_error, Result, ok, raise, Exec, pure,
  throw, gets, lift, modify, continue, ◌>>=◌, ◌>>◌,
}
use resumable_upload.Storage.{Upload, Storage}
use Like.{like}
use resumable_upload.Storage.File.{write_at}

-- A row. `upload_length` is the NOT NULL integer column, -1 while the length is deferred;
-- `concat_partial_ids` is the column's text, `none` for NULL. The metadata column holds the JSON
-- text of a dict of texts, which is read back as that dict.
pub record Row : Type 0 where
  pub upload_length : ℤ
  pub offset : ℕ
  pub metadata : Dict String
  pub completed : Bool
  pub expires_at : Option ℕ
  pub is_partial : Bool
  pub concat_partial_ids : Option String

-- The database, keyed by the primary key, and the files of `upload_dir` by upload id.
pub record Db : Type 0 where
  pub rows : Dict Row
  pub files : Dict Bytes

abbrev pub deferred_length_sentinel : ℤ
deferred_length_sentinel = negsuc 0

abbrev pub stored_length : Option ℕ → ℤ
stored_length none = deferred_length_sentinel
stored_length (some n) = pos n

-- -1 is the only negative number that is ever stored.
abbrev pub read_length : ℤ → Option ℕ
read_length (pos n) = some n
read_length (negsuc _) = none

abbrev pub eqb_ℤ : ℤ → ℤ → Bool
eqb_ℤ (pos a) (pos b) = eqb a b
eqb_ℤ (negsuc a) (negsuc b) = eqb a b
eqb_ℤ _ _ = false

unfoldable pub read_ids : Option String → List String
read_ids none = []
read_ids (some text) = if text == "" then [] else split b' ' text

abbrev pub to_upload : String → Row → Upload
to_upload id r = record {
  upload_id = id;
  upload_length = read_length r.upload_length;
  offset = r.offset;
  metadata = r.metadata;
  completed = r.completed;
  expires_at = r.expires_at;
  is_partial = r.is_partial;
  concat_partial_ids = read_ids r.concat_partial_ids;
}

abbrev upload_of : String → Option Row → Option Upload
upload_of id none = none
upload_of id (some r) = some (to_upload id r)

unfoldable pub get_upload : Db → String → Option Upload
get_upload s id = upload_of id (Dict.get s.rows id)

-- SQLite's integers have 64 bits, and sqlite3 raises OverflowError for a number beyond them, before
-- the statement runs. A declared length comes from the client, and is checked here; an offset and
-- the total of an assembly count bytes that are in a file, and are taken to fit.
abbrev pub fits_integer : ℕ → Bool
fits_integer n = ltb n (2 ^ 63)

abbrev pub fits_length : ℤ → Bool
fits_length (pos n) = fits_integer n
fits_length (negsuc _) = true

abbrev pub too_large : Error
too_large = overflow_error "Python int too large to convert to SQLite INTEGER"

-- INSERT INTO uploads
abbrev pub insert_row : String → Row → Exec Db Unit
insert_row id r s =
    if not (fits_length r.upload_length)
    then (raise too_large, s)
    else if Dict.contains s.rows id
    then (raise (integrity_error "UNIQUE constraint failed: uploads.upload_id"), s)
    else (ok tt, record s { rows = Dict.put s.rows id r })

-- open(path, "wb") and close
abbrev pub create_file : String → Exec Db Unit
create_file id = modify (λ s. record s { files = Dict.put s.files id [] })

abbrev pub update_found : Option Row → String → (Row → Bool) → (Row → Row) → Exec Db ℕ
update_found none id test change s = (ok 0, s)
update_found (some r) id test change s =
    if test r then (ok 1, record s { rows = Dict.put s.rows id (change r) }) else (ok 0, s)

-- UPDATE uploads SET ... WHERE upload_id = ? AND ...: the number of rows that it changed
abbrev pub update_row : String → (Row → Bool) → (Row → Row) → Exec Db ℕ
update_row id test change s = update_found (Dict.get s.rows id) id test change s

unfoldable pub create_upload : String → Option ℕ → Dict String → Option ℕ → Bool → Exec Db Unit
create_upload id upload_length metadata expires_at is_partial = do
  insert_row id (record {
    upload_length = stored_length upload_length;
    offset = 0;
    metadata = metadata;
    completed = false;
    expires_at = expires_at;
    is_partial = is_partial;
    concat_partial_ids = none;
  })
  create_file id

unfoldable pub update_offset : String → ℕ → Exec Db Unit
update_offset id offset = do update_row id (λ _. true) (λ r. record r { offset = offset }); pure tt

unfoldable pub set_upload_length : String → ℕ → Exec Db Unit
set_upload_length id n =
    if fits_integer n
    then update_row id (λ _. true) (λ r. record r { upload_length = pos n }) >> pure tt
    else throw too_large

unfoldable pub update_offset_atomic : String → ℕ → ℕ → Exec Db Bool
update_offset_atomic id expected new = do
  count ← update_row id (λ r. eqb r.offset expected) (λ r. record r { offset = new })
  pure (not (eqb count 0))

unfoldable pub complete_upload : String → Exec Db Bool
complete_upload id = do
  count ← update_row id (λ r. not r.completed) (λ r. record r { completed = true })
  pure (eqb count 1)

unfoldable pub delete_upload : String → Exec Db Unit
delete_upload id =
    modify λ s. record { rows = Dict.remove s.rows id; files = Dict.remove s.files id }

abbrev pub content : Option Bytes → Bytes
content none = []
content (some bytes) = bytes

-- A missing file is created first.
unfoldable pub write_chunk : String → ℕ → Bytes → Exec Db Unit
write_chunk id offset bytes = modify λ s. record s {
  files = Dict.put s.files id (write_at (content (Dict.get s.files id)) offset bytes);
}

abbrev file_or_error : Option Bytes → Result Bytes
file_or_error none = raise (os_error "No such file or directory")
file_or_error (some bytes) = ok bytes

unfoldable pub read_file : Db → String → Result Bytes
read_file s id = file_or_error (Dict.get s.files id)
