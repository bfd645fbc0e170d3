-- ===== src/Storage.antt =====
-- resumable_upload/storage/base.py: the storage interface that the server is written against, and
-- what a back end promises. Times are microseconds since the epoch.
pub mod File
pub mod Contract
pub mod Sound
use resumable_upload.Prelude.{
  ℕ, ◌+◌, ◌≡◌, ◌≢◌, String, Bool, true, false, ◌&&◌, Option, none, some, List, [], ◌∷◌, ◌++◌,
  if◌then◌else◌, eqb, leb, ltb, Bytes, length, ◌==◌,
}
use resumable_upload.Prelude.Dict.{Dict}
use resumable_upload.Exec.{Exec, Result, ok, raise, Error}

-- The dict that `get_upload` returns. `concat_partial_ids` is only tested for truth and read where
-- it is true, so `[]` stands for None too.
pub record Upload : Type 0 where
  pub upload_id : String
  pub upload_length : Option ℕ
  pub offset : ℕ
  pub metadata : Dict String
  pub completed : Bool
  pub expires_at : Option ℕ
  pub is_partial : Bool
  pub concat_partial_ids : List String

-- The methods of `Storage`, over the back end's own state. A method that only reads gives its
-- result alone. `cleanup_expired_uploads` takes the time at which it runs.
pub record Storage : Type 1 where
  pub State : Type 0
  pub supports_unfinished_concat : Bool
  pub create_upload : String → Option ℕ → Dict String → Option ℕ → Bool → Exec State Unit
  pub set_upload_length : String → ℕ → Exec State Unit
  pub get_upload : State → String → Option Upload
  pub update_offset : String → ℕ → Exec State Unit
  pub update_offset_atomic : String → ℕ → ℕ → Exec State Bool
  pub complete_upload : String → Exec State Bool
  pub delete_upload : String → Exec State Unit
  pub write_chunk : String → ℕ → Bytes → Exec State Unit
  pub read_file : State → String → Result Bytes
  pub get_file_info : String → Dict String
  pub cleanup_expired_uploads : ℕ → Exec State ℕ
  pub concatenate_uploads :
      String → List String → Dict String → Option ℕ → Bool → Exec State (Option ℕ)
  pub find_pending_finals_for_partial : State → String → Result (List String)
  pub try_assemble_final : String → Option ℕ → Exec State (Option ℕ)
