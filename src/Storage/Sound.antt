-- ===== src/Storage/Sound.antt =====
-- The invariant that ties the record of an upload to its file.
use resumable_upload.Prelude.{ℕ, ◌≤◌, ◌≡◌, String, true, some, length}
use resumable_upload.Storage.{Upload, Storage}
use resumable_upload.Storage.Contract.{bytes_or_empty}

-- The file reaches the offset, the offset stays within the declared length, and a completed upload
-- is at its length.
pub record IsSound (S : Storage) (s : S.State) (id : String) (u : Upload) : Type 0 where
  pub covered : u.offset ≤ length (bytes_or_empty (S.read_file s id))
  pub bounded : (n : ℕ) → u.upload_length ≡ some n → u.offset ≤ n
  pub whole : u.completed ≡ true → u.upload_length ≡ some u.offset

unfoldable pub AllSound : (S : Storage) → S.State → Type 0
AllSound S s = (id : String) (u : Upload) → S.get_upload s id ≡ some u → IsSound S s id u

module _ (S : Storage) where
  -- A record stays sound where the file is the same.
  pub transfer :
      (s s' : S.State) (id : String) (u : Upload)
      → S.read_file s' id ≡ S.read_file s id
      → IsSound S s id u
      → IsSound S s' id u
  transfer s s' id u same sound = record {
    covered = rw same sound.covered;
    bounded = sound.bounded;
    whole = sound.whole;
  }

  pub moved :
      (s : S.State) (id j : String) (u u' : Upload)
      → id ≡ j
      → S.get_upload s id ≡ some u
      → S.get_upload s j ≡ some u'
      → IsSound S s id u
      → IsSound S s j u'
  moved s id j u u' same e e' sound =
      let same_record : u ≡ u' = cc (e, e', same) in rw (← same, ← same_record) sound
