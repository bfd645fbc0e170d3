-- ===== src/Server/Patch/Appends.antt =====
-- `handle_patch` on an upload that is not a partial one, where no hook stops the upload.
use resumable_upload.Prelude.{
  ℕ, Bool, ◌+◌, ◌≤◌, ◌≡◌, refl, String, ◌==◌, eq_refl, true, false, Option, none, some, [], ◌++◌,
  if◌then◌else◌, leb, Bytes, length, take, arith, Bool-cases, inl, inr,
}
use resumable_upload.Prelude.Dict.{Dict}
use resumable_upload.Exec.{◌>>=◌}
use resumable_upload.Metrics.{Registry}
use resumable_upload.Storage.{Upload, Storage}
use resumable_upload.Storage.File.{take-write_at}
use resumable_upload.Storage.Contract.{IsLawful, Fits, is_open, bytes_or_empty, has_offset}
use resumable_upload.Server.{Server, World, count_in}
use resumable_upload.Server.Checked.{accept}
use resumable_upload.Server.Patch.{PatchPlan, plan_patch}
use resumable_upload.Server.Patch.Accepted.{FitsLength, IsAcceptable, plan_patch-IsAcceptable}
use resumable_upload.Server.Patch.Writes.{
  written, relength, get-written, get-written_elsewhere, read-written, write_lem,
}
use resumable_upload.Server.Patch.Finish.{finish-reached, finish-short}
use resumable_upload.Server.Patch.Handler.{
  answer, finish, apply_plan, accepted, fire_chunk_hook, handle_patch,
}

-- An upload after `n` more bytes.
abbrev pub extended : Upload → ℕ → ℕ → Upload
extended u n total = record u {
  offset = u.offset + n;
  upload_length = some total;
  completed = leb total (u.offset + n);
}

module _ (S : Storage) where
  abbrev bytes_counted : Bytes → World S.State → Option Registry
  bytes_counted body w = count_in w.metrics "tusd_bytes_received_total" (length body) []

  -- The world once the chunk is written and counted.
  abbrev pub advanced : String → PatchPlan → Bytes → World S.State → World S.State
  advanced id plan body w = record w {
    store = written S id plan body w.store;
    metrics = bytes_counted body w;
  }

  abbrev final_store : String → PatchPlan → S.State → S.State
  final_store id plan s =
      if leb plan.effective_length plan.new_offset then (S.complete_upload id s).1 else s

module _ (S : Storage) {can_store : ℕ → Bool} (L : IsLawful S can_store) (v : Server) where
  accepted_lem :
      (id : String) (u : Upload) (plan : PatchPlan) (body : Bytes) (w : World S.State)
      → v.on_chunk_received ≡ none
      → accepted S v id u plan body w
        ≡ (finish S v id u plan >>= answer S v plan) (record w { metrics = bytes_counted S body w })
  unfolding accepted fire_chunk_hook
  accepted_lem id u plan body w quiet = rw quiet refl

  pub apply_plan_lem :
      (id : String) (u : Upload) (plan : PatchPlan) (body : Bytes) (w : World S.State)
      → v.on_chunk_received ≡ none
      → Fits can_store plan.commit_length
      → has_offset plan.expected_offset (S.get_upload w.store id) ≡ true
      → apply_plan S v id u plan body w
        ≡ (finish S v id u plan >>= answer S v plan) (advanced S id plan body w)
  unfolding apply_plan
  apply_plan_lem id u plan body w quiet fits moved =
      rw (write_lem S L v id plan body w fits, moved)
        (accepted_lem id u plan body (record w { store = written S id plan body w.store }) quiet)

  finish-store :
      (id : String) (u : Upload) (plan : PatchPlan) (w : World S.State)
      → u.is_partial ≡ false
      → is_open (S.get_upload w.store id) ≡ true
      → ((finish S v id u plan >>= answer S v plan) w).1.store ≡ final_store S id plan w.store
  finish-store id u plan w whole fresh =
      elim (Bool-cases (leb plan.effective_length plan.new_offset)) [
        | inl reached ↦ rw (finish-reached S v L id u plan w whole fresh reached, reached) refl
        | inr short ↦ rw (finish-short S v id u plan w short, short) refl
      ]

  relength_fits :
      (u : Upload) (declared commit : Option ℕ) (n : ℕ)
      → u.upload_length ≡ declared
      → FitsLength v declared (commit, n)
      → relength commit (some u) ≡ some (record u { upload_length = some n })
  relength_fits u none commit n e fits = rw (fits.0) refl
  relength_fits u (some m) commit n e fits = rw (fits.0, fits.1, ← e) refl

  get-written_plan :
      (now : ℕ) (id : String) (u : Upload) (plan : PatchPlan) (body : Bytes) (s : S.State)
      → S.get_upload s id ≡ some u
      → IsAcceptable v now u body plan
      → Fits can_store plan.commit_length
      → S.get_upload (written S id plan body s) id
        ≡ some (record u {
          offset = u.offset + length body;
          upload_length = some plan.effective_length;
        })
  get-written_plan now id u plan body s found ok_plan fits =
      rw
        (
          get-written S L id plan body s fits,
          found,
          ok_plan.at_offset,
          ok_plan.moves,
          relength_fits u u.upload_length plan.commit_length plan.effective_length refl
              ok_plan.sized,
        )
        (ground arith)

  pub open_at :
      (now : ℕ) (id : String) (u : Upload) (plan : PatchPlan) (body : Bytes) (s : S.State)
      → S.get_upload s id ≡ some u
      → IsAcceptable v now u body plan
      → Fits can_store plan.commit_length
      → is_open (S.get_upload (written S id plan body s) id) ≡ true
  open_at now id u plan body s found ok_plan fits =
      rw (get-written_plan now id u plan body s found ok_plan fits, ok_plan.open_upload) refl

  pub handle_patch-store :
      (now : ℕ) (id : String) (headers : Dict String) (body : Bytes) (w : World S.State)
      (u : Upload) (plan : PatchPlan)
      → S.get_upload w.store id ≡ some u
      → plan_patch v now u headers body ≡ accept plan
      → Fits can_store plan.commit_length
      → u.is_partial ≡ false
      → v.on_chunk_received ≡ none
      → (handle_patch S v now id headers body w).1.store
        ≡ final_store S id plan (written S id plan body w.store)
  unfolding handle_patch
  handle_patch-store now id headers body w u plan found planned fits whole quiet =
      let fine = plan_patch-IsAcceptable v now u headers body plan planned in
      rw
        (
          found,
          planned,
          apply_plan_lem id u plan body w quiet fits (rw (found, fine.at_offset) (ground arith)),
        )
        (finish-store id u plan (advanced S id plan body w) whole
          (open_at now id u plan body w.store found fine fits))

  get-final_store :
      (id : String) (plan : PatchPlan) (s : S.State) (u : Upload)
      → S.get_upload s id ≡ some u
      → u.completed ≡ false
      → S.get_upload (final_store S id plan s) id
        ≡ some (record u { completed = leb plan.effective_length plan.new_offset })
  get-final_store id plan s u found fresh =
      elim (Bool-cases (leb plan.effective_length plan.new_offset)) [
        | inl reached ↦ rw (reached, L.get-complete_upload s id id, eq_refl id, found) refl
        | inr short ↦ rw (short, found) (rw (← fresh) refl)
      ]

  pub read-final_store :
      (id : String) (plan : PatchPlan) (s : S.State) (j : String)
      → S.read_file (final_store S id plan s) j ≡ S.read_file s j
  read-final_store id plan s j = elim (Bool-cases (leb plan.effective_length plan.new_offset)) [
    | inl reached ↦ rw (reached, L.read-complete_upload s id j) refl
    | inr short ↦ rw short refl
  ]

  get-final_store_elsewhere :
      (id : String) (plan : PatchPlan) (s : S.State) (j : String)
      → (id == j) ≡ false
      → S.get_upload (final_store S id plan s) j ≡ S.get_upload s j
  get-final_store_elsewhere id plan s j other =
      elim (Bool-cases (leb plan.effective_length plan.new_offset)) [
        | inl reached ↦ rw (reached, L.get-complete_upload s id j, other) refl
        | inr short ↦ rw short refl
      ]

  -- An accepted PATCH of an upload that is not partial, on a server without on_chunk_received,
  -- where the storage can store the length that the plan commits, if it commits one, moves the
  -- offset by the length of the body, commits the length of the plan, and marks the upload as
  -- completed if and only if the offset reaches that length. The file holds, up to the new offset,
  -- what it held up to the old one and then the body, provided that it reached the old one. Every
  -- other upload and file is as before.
  pub handle_patch-appends :
      (now : ℕ) (id : String) (headers : Dict String) (body : Bytes) (w : World S.State)
      (u : Upload) (plan : PatchPlan)
      → S.get_upload w.store id ≡ some u
      → plan_patch v now u headers body ≡ accept plan
      → Fits can_store plan.commit_length
      → u.is_partial ≡ false
      → v.on_chunk_received ≡ none
      → u.offset ≤ length (bytes_or_empty (S.read_file w.store id))
      → let s = (handle_patch S v now id headers body w).1.store in
        (S.get_upload s id ≡ some (extended u (length body) plan.effective_length))
        × (take (u.offset + length body) (bytes_or_empty (S.read_file s id))
            ≡ take u.offset (bytes_or_empty (S.read_file w.store id)) ++ body)
        × ((j : String)
            → (id == j) ≡ false
            → (S.get_upload s j ≡ S.get_upload w.store j)
              × (S.read_file s j ≡ S.read_file w.store j))
  handle_patch-appends now id headers body w u plan found planned fits whole quiet covered =
      let fine = plan_patch-IsAcceptable v now u headers body plan planned in
      let s = written S id plan body w.store in
      rw (handle_patch-store now id headers body w u plan found planned fits whole quiet) (
        rw
            (get-final_store id plan s _
              (get-written_plan now id u plan body w.store found fine fits) fine.open_upload)
            (rw fine.moves refl),
        rw
            (
              read-final_store id plan s id,
              read-written S L id plan body w.store id,
              eq_refl id,
              fine.at_offset,
            )
            (take-write_at (bytes_or_empty (S.read_file w.store id)) u.offset body covered),
        λ j other. (
          rw (get-final_store_elsewhere id plan s j other)
              (get-written_elsewhere S L id plan body w.store j fits other),
          rw (read-final_store id plan s j, read-written S L id plan body w.store j, other) refl,
        ),
      )
