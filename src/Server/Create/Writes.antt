-- ===== src/Server/Create/Writes.antt =====
-- What the steps of `apply_create` do to the storage.
use resumable_upload.Prelude.{
  ℕ, Bool, ◌≡◌, refl, String, ◌==◌, eq_refl, false, some, [], if◌then◌else◌, Bytes, length,
  Bool-cases, inl, inr,
}
use resumable_upload.Exec.{ok}
use resumable_upload.Storage.{Upload, Storage}
use resumable_upload.Storage.File.{write_at_empty}
use resumable_upload.Storage.Contract.{IsLawful}
use resumable_upload.Server.{Server, World}
use resumable_upload.Server.Create.{CreatePlan}
use resumable_upload.Server.Create.Handler.{write_body, reached}

-- The bytes that the request stores, and the upload that it makes.
abbrev pub initial : CreatePlan → Bytes → Bytes
initial plan body = if plan.write_body then body else []

abbrev pub created_upload : CreatePlan → ℕ → Upload
created_upload plan offset = record {
  upload_id = plan.upload_id;
  upload_length = plan.upload_length;
  offset = offset;
  metadata = plan.metadata;
  completed = reached offset plan.upload_length;
  expires_at = plan.expires_at;
  is_partial = plan.is_partial;
  concat_partial_ids = [];
}

module _ (S : Storage) {can_store : ℕ → Bool} (L : IsLawful S can_store) (v : Server) where
  abbrev pub registered : CreatePlan → S.State → S.State
  registered plan s =
      (S.create_upload plan.upload_id plan.upload_length plan.metadata plan.expires_at
        plan.is_partial s).1

  abbrev pub filled : CreatePlan → Bytes → S.State → S.State
  filled plan body s =
      if plan.write_body
      then (S.update_offset plan.upload_id (length body)
          (S.write_chunk plan.upload_id 0 body s).1).1
      else s

  abbrev pub closed : CreatePlan → ℕ → S.State → S.State
  closed plan n s =
      if reached n plan.upload_length then (S.complete_upload plan.upload_id s).1 else s

  pub write_body_lem :
      (plan : CreatePlan) (body : Bytes) (w : World S.State)
      → write_body S v plan body w
        ≡ (ok (length (initial plan body)), record w { store = filled plan body w.store })
  unfolding write_body
  write_body_lem plan body w = elim (Bool-cases plan.write_body) [
    | inl e ↦
        rw
          (
            e,
            L.ok-write_chunk w.store plan.upload_id 0 body,
            L.ok-update_offset (S.write_chunk plan.upload_id 0 body w.store).1 plan.upload_id
                (length body),
          )
          refl
    | inr e ↦ rw e refl
  ]

  pub read-filled :
      (plan : CreatePlan) (body : Bytes) (s : S.State)
      → S.read_file s plan.upload_id ≡ ok []
      → S.read_file (filled plan body s) plan.upload_id ≡ ok (initial plan body)
  read-filled plan body s empty = elim (Bool-cases plan.write_body) [
    | inl e ↦
        rw
          (
            e,
            L.read-update_offset (S.write_chunk plan.upload_id 0 body s).1 plan.upload_id
                (length body) plan.upload_id,
            L.read-write_chunk s plan.upload_id 0 body plan.upload_id,
            eq_refl plan.upload_id,
            empty,
            write_at_empty body,
          )
          refl
    | inr e ↦ rw (e, empty) refl
  ]

  pub get-filled :
      (plan : CreatePlan) (body : Bytes) (s : S.State) (u : Upload)
      → S.get_upload s plan.upload_id ≡ some u
      → u.offset ≡ 0
      → S.get_upload (filled plan body s) plan.upload_id
        ≡ some (record u { offset = length (initial plan body) })
  get-filled plan body s u found zero_offset = elim (Bool-cases plan.write_body) [
    | inl e ↦
        rw
          (
            e,
            L.get-update_offset (S.write_chunk plan.upload_id 0 body s).1 plan.upload_id
                (length body) plan.upload_id,
            L.get-write_chunk s plan.upload_id 0 body plan.upload_id,
            eq_refl plan.upload_id,
            found,
          )
          refl
    | inr e ↦ rw (e, found) (rw (← zero_offset) refl)
  ]

  pub filled-elsewhere :
      (plan : CreatePlan) (body : Bytes) (s : S.State) (j : String)
      → (plan.upload_id == j) ≡ false
      → (S.get_upload (filled plan body s) j ≡ S.get_upload s j)
        × (S.read_file (filled plan body s) j ≡ S.read_file s j)
  filled-elsewhere plan body s j other = elim (Bool-cases plan.write_body) [
    | inl e ↦
        rw
          (
            e,
            L.get-update_offset (S.write_chunk plan.upload_id 0 body s).1 plan.upload_id
                (length body) j,
            L.get-write_chunk s plan.upload_id 0 body j,
            L.read-update_offset (S.write_chunk plan.upload_id 0 body s).1 plan.upload_id
                (length body) j,
            L.read-write_chunk s plan.upload_id 0 body j,
            other,
          )
          (refl, refl)
    | inr e ↦ rw e (refl, refl)
  ]

  pub closed_lem :
      (plan : CreatePlan) (n : ℕ) (s : S.State) (u : Upload)
      → S.get_upload s plan.upload_id ≡ some u
      → u.completed ≡ false
      → S.get_upload (closed plan n s) plan.upload_id
        ≡ some (record u { completed = reached n plan.upload_length })
  closed_lem plan n s u found fresh = elim (Bool-cases (reached n plan.upload_length)) [
    | inl e ↦
        rw (e, L.get-complete_upload s plan.upload_id plan.upload_id, eq_refl plan.upload_id, found)
          refl
    | inr e ↦ rw (e, found) (rw (← fresh) refl)
  ]

  pub read-closed :
      (plan : CreatePlan) (n : ℕ) (s : S.State) (j : String)
      → S.read_file (closed plan n s) j ≡ S.read_file s j
  read-closed plan n s j = elim (Bool-cases (reached n plan.upload_length)) [
    | inl e ↦ rw (e, L.read-complete_upload s plan.upload_id j) refl
    | inr e ↦ rw e refl
  ]

  pub get-closed_elsewhere :
      (plan : CreatePlan) (n : ℕ) (s : S.State) (j : String)
      → (plan.upload_id == j) ≡ false
      → S.get_upload (closed plan n s) j ≡ S.get_upload s j
  get-closed_elsewhere plan n s j other = elim (Bool-cases (reached n plan.upload_length)) [
    | inl e ↦ rw (e, L.get-complete_upload s plan.upload_id j, other) refl
    | inr e ↦ rw e refl
  ]
