-- ===== src/Storage/Contract.antt =====
-- What a back end promises for the methods that change it: each method read through `get_upload`
-- and `read_file`, for the upload it is about and for every other.
use resumable_upload.Prelude.{
  ℕ, String, ◌==◌, ◌≡◌, Bool, true, false, not, Option, none, some, List, [], eqb, Bytes,
  if◌then◌else◌,
}
use resumable_upload.Prelude.Dict.{Dict}
use resumable_upload.Exec.{Error, Result, ok, raise}
use resumable_upload.Storage.{Upload, Storage}
use resumable_upload.Storage.File.{write_at}

abbrev pub new_upload : String → Option ℕ → Dict String → Option ℕ → Bool → Upload
new_upload id upload_length metadata expires_at is_partial = record {
  upload_id = id;
  upload_length = upload_length;
  offset = 0;
  metadata = metadata;
  completed = false;
  expires_at = expires_at;
  is_partial = is_partial;
  concat_partial_ids = [];
}

abbrev pub with_length : ℕ → Option Upload → Option Upload
with_length n none = none
with_length n (some u) = some (record u { upload_length = some n })

abbrev pub with_offset : ℕ → Option Upload → Option Upload
with_offset n none = none
with_offset n (some u) = some (record u { offset = n })

abbrev pub has_offset : ℕ → Option Upload → Bool
has_offset n none = false
has_offset n (some u) = eqb u.offset n

abbrev pub completing : Option Upload → Option Upload
completing none = none
completing (some u) = some (record u { completed = true })

abbrev pub is_open : Option Upload → Bool
is_open none = false
is_open (some u) = not u.completed

abbrev pub bytes_or_empty : Result Bytes → Bytes
bytes_or_empty (ok bytes) = bytes
bytes_or_empty (raise _) = []

-- A length that is to be stored, if any, can be.
abbrev pub Fits : (ℕ → Bool) → Option ℕ → Type 0
Fits fits none = Unit
Fits fits (some n) = fits n ≡ true

-- `can_store` tells which lengths the back end can store.
pub record IsLawful (S : Storage) (can_store : ℕ → Bool) : Type 0 where
  pub ok-create_upload :
      (s : S.State) (id : String) (n : Option ℕ) (m : Dict String) (t : Option ℕ) (p : Bool)
      → Fits can_store n
      → S.get_upload s id ≡ none
      → (S.create_upload id n m t p s).0 ≡ ok tt
  pub get-create_upload :
      (s : S.State) (id : String) (n : Option ℕ) (m : Dict String) (t : Option ℕ) (p : Bool)
      (j : String)
      → Fits can_store n
      → S.get_upload s id ≡ none
      → S.get_upload (S.create_upload id n m t p s).1 j
        ≡ (if id == j then some (new_upload id n m t p) else S.get_upload s j)
  pub read-create_upload :
      (s : S.State) (id : String) (n : Option ℕ) (m : Dict String) (t : Option ℕ) (p : Bool)
      (j : String)
      → Fits can_store n
      → S.get_upload s id ≡ none
      → S.read_file (S.create_upload id n m t p s).1 j
        ≡ (if id == j then ok [] else S.read_file s j)
  -- A length that cannot be stored raises, and changes nothing.
  pub raise-create_upload :
      (s : S.State) (id : String) (n : ℕ) (m : Dict String) (t : Option ℕ) (p : Bool)
      → can_store n ≡ false
      → (e : Error) × (S.create_upload id (some n) m t p s ≡ (raise e, s))
  pub ok-set_upload_length :
      (s : S.State) (id : String) (n : ℕ)
      → can_store n ≡ true
      → (S.set_upload_length id n s).0 ≡ ok tt
  pub raise-set_upload_length :
      (s : S.State) (id : String) (n : ℕ)
      → can_store n ≡ false
      → (e : Error) × (S.set_upload_length id n s ≡ (raise e, s))
  pub get-set_upload_length :
      (s : S.State) (id : String) (n : ℕ) (j : String)
      → can_store n ≡ true
      → S.get_upload (S.set_upload_length id n s).1 j
        ≡ (if id == j then with_length n (S.get_upload s j) else S.get_upload s j)
  pub read-set_upload_length :
      (s : S.State) (id : String) (n : ℕ) (j : String)
      → S.read_file (S.set_upload_length id n s).1 j ≡ S.read_file s j
  pub ok-update_offset : (s : S.State) (id : String) (n : ℕ) → (S.update_offset id n s).0 ≡ ok tt
  pub get-update_offset :
      (s : S.State) (id : String) (n : ℕ) (j : String)
      → S.get_upload (S.update_offset id n s).1 j
        ≡ (if id == j then with_offset n (S.get_upload s j) else S.get_upload s j)
  pub read-update_offset :
      (s : S.State) (id : String) (n : ℕ) (j : String)
      → S.read_file (S.update_offset id n s).1 j ≡ S.read_file s j
  -- The comparison and the write are one step.
  pub result-update_offset_atomic :
      (s : S.State) (id : String) (n m : ℕ)
      → (S.update_offset_atomic id n m s).0 ≡ ok (has_offset n (S.get_upload s id))
  pub get-update_offset_atomic :
      (s : S.State) (id : String) (n m : ℕ) (j : String)
      → S.get_upload (S.update_offset_atomic id n m s).1 j ≡ (
          if id == j
          then (if has_offset n (S.get_upload s j)
              then with_offset m (S.get_upload s j)
              else S.get_upload s j)
          else S.get_upload s j)
  pub read-update_offset_atomic :
      (s : S.State) (id : String) (n m : ℕ) (j : String)
      → S.read_file (S.update_offset_atomic id n m s).1 j ≡ S.read_file s j
  -- Only the call that completes the upload is told so.
  pub result-complete_upload :
      (s : S.State) (id : String) → (S.complete_upload id s).0 ≡ ok (is_open (S.get_upload s id))
  pub get-complete_upload :
      (s : S.State) (id j : String)
      → S.get_upload (S.complete_upload id s).1 j
        ≡ (if id == j then completing (S.get_upload s j) else S.get_upload s j)
  pub read-complete_upload :
      (s : S.State) (id j : String) → S.read_file (S.complete_upload id s).1 j ≡ S.read_file s j
  pub ok-write_chunk :
      (s : S.State) (id : String) (n : ℕ) (b : Bytes) → (S.write_chunk id n b s).0 ≡ ok tt
  pub get-write_chunk :
      (s : S.State) (id : String) (n : ℕ) (b : Bytes) (j : String)
      → S.get_upload (S.write_chunk id n b s).1 j ≡ S.get_upload s j
  pub read-write_chunk :
      (s : S.State) (id : String) (n : ℕ) (b : Bytes) (j : String)
      → S.read_file (S.write_chunk id n b s).1 j ≡ (
          if id == j then ok (write_at (bytes_or_empty (S.read_file s j)) n b) else S.read_file s j)
  pub ok-delete_upload : (s : S.State) (id : String) → (S.delete_upload id s).0 ≡ ok tt
  pub get-delete_upload :
      (s : S.State) (id j : String)
      → S.get_upload (S.delete_upload id s).1 j ≡ (if id == j then none else S.get_upload s j)
  pub gone-delete_upload :
      (s : S.State) (id : String)
      → (e : Error) × (S.read_file (S.delete_upload id s).1 id ≡ raise e)
  pub read-delete_upload :
      (s : S.State) (id j : String)
      → (id == j) ≡ false
      → S.read_file (S.delete_upload id s).1 j ≡ S.read_file s j
  -- Concatenation and assembly touch the final upload alone.
  pub get-concatenate_uploads :
      (s : S.State) (id : String) (ids : List String) (m : Dict String) (t : Option ℕ) (u : Bool)
      (j : String)
      → (id == j) ≡ false
      → S.get_upload (S.concatenate_uploads id ids m t u s).1 j ≡ S.get_upload s j
  pub read-concatenate_uploads :
      (s : S.State) (id : String) (ids : List String) (m : Dict String) (t : Option ℕ) (u : Bool)
      (j : String)
      → (id == j) ≡ false
      → S.read_file (S.concatenate_uploads id ids m t u s).1 j ≡ S.read_file s j
  pub get-try_assemble_final :
      (s : S.State) (id : String) (t : Option ℕ) (j : String)
      → (id == j) ≡ false
      → S.get_upload (S.try_assemble_final id t s).1 j ≡ S.get_upload s j
  pub read-try_assemble_final :
      (s : S.State) (id : String) (t : Option ℕ) (j : String)
      → (id == j) ≡ false
      → S.read_file (S.try_assemble_final id t s).1 j ≡ S.read_file s j
