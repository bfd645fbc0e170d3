-- ===== src/Server/Patch/Writes.antt =====
-- What an accepted PATCH writes: the length that it commits, the file, and the new offset.
use resumable_upload.Prelude.{
  ℕ, Bool, ◌≡◌, refl, String, ◌==◌, eq_refl, false, Option, none, some, if◌then◌else◌, Bytes, arith,
  Bool-cases, inl, inr, ◌⊎◌,
}
use resumable_upload.Exec.{Error, ok, raise}
use resumable_upload.Storage.{Upload, Storage}
use resumable_upload.Storage.File.{write_at}
use resumable_upload.Storage.Contract.{
  IsLawful, Fits, with_length, with_offset, has_offset, bytes_or_empty,
}
use resumable_upload.Server.{Server, World}
use resumable_upload.Server.Patch.{PatchPlan}
use resumable_upload.Server.Patch.Handler.{commit, write}

abbrev pub relength : Option ℕ → Option Upload → Option Upload
relength none u = u
relength (some n) u = with_length n u

module _ (S : Storage) where
  abbrev committed : String → Option ℕ → S.State → S.State
  committed id none s = s
  committed id (some n) s = (S.set_upload_length id n s).1

  abbrev chunk_written : String → PatchPlan → Bytes → S.State → S.State
  chunk_written id plan body s =
      (S.write_chunk id plan.expected_offset body (committed id plan.commit_length s)).1

  -- The store after the writes of a PATCH.
  abbrev pub written : String → PatchPlan → Bytes → S.State → S.State
  written id plan body s =
      (S.update_offset_atomic id plan.expected_offset plan.new_offset
        (chunk_written id plan body s)).1

module _ (S : Storage) {can_store : ℕ → Bool} (L : IsLawful S can_store) where
  get-committed :
      (id : String) (n : Option ℕ) (s : S.State) (j : String)
      → Fits can_store n
      → S.get_upload (committed S id n s) j
        ≡ (if id == j then relength n (S.get_upload s j) else S.get_upload s j)
  get-committed id none s j fits = ground arith
  get-committed id (some n) s j fits = L.get-set_upload_length s id n j fits

  read-committed :
      (id : String) (n : Option ℕ) (s : S.State) (j : String)
      → S.read_file (committed S id n s) j ≡ S.read_file s j
  read-committed id none s j = refl
  read-committed id (some n) s j = L.read-set_upload_length s id n j

  get-chunk_written :
      (id : String) (plan : PatchPlan) (body : Bytes) (s : S.State) (j : String)
      → Fits can_store plan.commit_length
      → S.get_upload (chunk_written S id plan body s) j
        ≡ (if id == j then relength plan.commit_length (S.get_upload s j) else S.get_upload s j)
  get-chunk_written id plan body s j fits =
      rw (L.get-write_chunk (committed S id plan.commit_length s) id plan.expected_offset body j)
        (get-committed id plan.commit_length s j fits)

  pub read-written :
      (id : String) (plan : PatchPlan) (body : Bytes) (s : S.State) (j : String)
      → S.read_file (written S id plan body s) j ≡ (
          if id == j
          then ok (write_at (bytes_or_empty (S.read_file s j)) plan.expected_offset body)
          else S.read_file s j)
  read-written id plan body s j =
      rw
        (
          L.read-update_offset_atomic (chunk_written S id plan body s) id plan.expected_offset
              plan.new_offset j,
          L.read-write_chunk (committed S id plan.commit_length s) id plan.expected_offset body j,
          read-committed id plan.commit_length s j,
        )
        refl

  pub get-written_elsewhere :
      (id : String) (plan : PatchPlan) (body : Bytes) (s : S.State) (j : String)
      → Fits can_store plan.commit_length
      → (id == j) ≡ false
      → S.get_upload (written S id plan body s) j ≡ S.get_upload s j
  get-written_elsewhere id plan body s j fits other =
      rw
        (
          L.get-update_offset_atomic (chunk_written S id plan body s) id plan.expected_offset
              plan.new_offset j,
          get-chunk_written id plan body s j fits,
          other,
        )
        refl

  offset-relength :
      (n : Option ℕ) (o : ℕ) (u : Option Upload) → has_offset o (relength n u) ≡ has_offset o u
  offset-relength none o u = refl
  offset-relength (some n) o none = refl
  offset-relength (some n) o (some u) = refl

  pub get-written :
      (id : String) (plan : PatchPlan) (body : Bytes) (s : S.State)
      → Fits can_store plan.commit_length
      → S.get_upload (written S id plan body s) id ≡ (
          if has_offset plan.expected_offset (S.get_upload s id)
          then with_offset plan.new_offset (relength plan.commit_length (S.get_upload s id))
          else relength plan.commit_length (S.get_upload s id))
  get-written id plan body s fits =
      rw
        (
          L.get-update_offset_atomic (chunk_written S id plan body s) id plan.expected_offset
              plan.new_offset id,
          get-chunk_written id plan body s id fits,
          eq_refl id,
          offset-relength plan.commit_length plan.expected_offset (S.get_upload s id),
        )
        refl

  result-written :
      (id : String) (plan : PatchPlan) (body : Bytes) (s : S.State)
      → Fits can_store plan.commit_length
      → (S.update_offset_atomic id plan.expected_offset plan.new_offset
          (chunk_written S id plan body s)).0
        ≡ ok (has_offset plan.expected_offset (S.get_upload s id))
  result-written id plan body s fits =
      rw
        (
          L.result-update_offset_atomic (chunk_written S id plan body s) id plan.expected_offset
              plan.new_offset,
          get-chunk_written id plan body s id fits,
          eq_refl id,
          offset-relength plan.commit_length plan.expected_offset (S.get_upload s id),
        )
        refl

  commit_lem :
      (v : Server) (id : String) (n : Option ℕ) (w : World S.State)
      → Fits can_store n
      → commit S v id n w ≡ (ok tt, record w { store = committed S id n w.store })
  commit_lem v id none w fits = refl
  commit_lem v id (some n) w fits = rw (L.ok-set_upload_length w.store id n fits) refl

  -- Where the length that the plan commits can be stored, the writes succeed, and the offset moves
  -- where it is still the one that the plan expects.
  pub write_lem :
      (v : Server) (id : String) (plan : PatchPlan) (body : Bytes) (w : World S.State)
      → Fits can_store plan.commit_length
      → write S v id plan body w ≡ (
        ok (has_offset plan.expected_offset (S.get_upload w.store id)),
        record w { store = written S id plan body w.store },
      )
  unfolding write
  write_lem v id plan body w fits =
      rw
        (
          commit_lem v id plan.commit_length w fits,
          L.ok-write_chunk (committed S id plan.commit_length w.store) id plan.expected_offset body,
          result-written id plan body w.store fits,
        )
        refl

  -- Where it cannot, they raise, and change nothing.
  pub write-raises :
      (v : Server) (id : String) (plan : PatchPlan) (body : Bytes) (w : World S.State) (n : ℕ)
      → plan.commit_length ≡ some n
      → can_store n ≡ false
      → (e : Error) × (write S v id plan body w ≡ (raise e, w))
  unfolding write
  write-raises v id plan body w n commits large =
      let (e, raised) = L.raise-set_upload_length w.store id n large in
      (e, rw (commits, raised) refl)

  -- Whether the length that a plan commits can be stored.
  pub Fits-cases :
      (n : Option ℕ) → Fits can_store n ⊎ (m : ℕ) × (n ≡ some m) × (can_store m ≡ false)
  Fits-cases none = inl tt
  Fits-cases (some n) = elim (Bool-cases (can_store n)) [
    | inl fits ↦ inl fits
    | inr large ↦ inr (n, refl, large)
  ]
