-- ===== src/EndToEnd/Patches.antt =====
-- `handle_patch` and `handle_head` as the client's contract wants them.
use resumable_upload.Prelude.{
  ℕ, Bool, ◌+◌, ◌≡◌, ◌≢◌, refl, sym, ap, ◌∙◌, String, false, some, ◌++◌, leb, Bytes, length, take,
  length-take, length-append, str, arith, inl, inr, Bool-cases,
}
use resumable_upload.Prelude.Dict
use resumable_upload.Prelude.Dict.{Dict}
use resumable_upload.Prelude.Text.Numbers.{int-str, str-not_empty}
use resumable_upload.Exec.{Error, ok, raise}
use resumable_upload.Storage.{Upload, Storage}
use resumable_upload.Storage.Contract.{IsLawful, Fits, bytes_or_empty}
use resumable_upload.Server.{Server, World, Response, nonempty, apply_completion_response}
use resumable_upload.Server.Checked.{accept, Checked-cases}
use resumable_upload.Server.Patch.{PatchPlan, plan_patch}
use resumable_upload.Server.Patch.Accepted.{plan_patch-IsAcceptable}
use resumable_upload.Server.Patch.Appends.{extended, handle_patch-appends}
use resumable_upload.Server.Patch.Handler.{patch_response, handle_patch}
use resumable_upload.Server.Patch.Refused.{plan_patch-Refuses, plan_patch-at_offset}
use resumable_upload.Server.Patch.Replies.{
  handle_patch-announces, handle_patch-refuses, handle_patch-raises,
}
use resumable_upload.Server.Patch.Writes.{Fits-cases}
use resumable_upload.Client.Contract.{PatchWire}
use resumable_upload.Client.Uploader.{is_success, moved_offset}
use resumable_upload.EndToEnd.{IsPlainServer, to_wire, IsReady, acknowledged}

module _ (S : Storage) {can_store : ℕ → Bool} (L : IsLawful S can_store) (v : Server)
    (plain : IsPlainServer v) (id : String) where
  -- The answer to an accepted PATCH, where there are no hooks.
  pub patch-answer :
      (now : ℕ) (headers : Dict String) (body : Bytes) (w : World S.State) (u : Upload)
      (plan : PatchPlan)
      → S.get_upload w.store id ≡ some u
      → plan_patch v now u headers body ≡ accept plan
      → Fits can_store plan.commit_length
      → u.is_partial ≡ false
      → (handle_patch S v now id headers body w).0 ≡ ok (patch_response v plan)
  unfolding apply_completion_response
  patch-answer now headers body w u plan found planned fits whole =
      let said =
        handle_patch-announces S L v now id headers body w u plan found planned fits whole
          plain.no_chunk_hook in
      elim (Bool-cases (leb plan.effective_length plan.new_offset)) [
        | inl reached ↦ (said.0 reached).0 ∙ (rw plain.no_complete_hook refl)
        | inr short ↦ (said.1 short).0
      ]

  accepted-IsReady :
      (now : ℕ) (headers : Dict String) (body : Bytes) (w : World S.State) (plan : PatchPlan)
      (ready : IsReady S id w.store)
      → plan_patch v now ready.upload headers body ≡ accept plan
      → Fits can_store plan.commit_length
      → let s' = (handle_patch S v now id headers body w).1.store in
        IsReady S id s'
        × (length (acknowledged S id w.store) ≡ ready.upload.offset)
        × (acknowledged S id s' ≡ acknowledged S id w.store ++ body)
  accepted-IsReady now headers body w plan ready planned fits =
      let u = ready.upload in
      let old = bytes_or_empty (S.read_file w.store id) in
      let s' = (handle_patch S v now id headers body w).1.store in
      let new = bytes_or_empty (S.read_file s' id) in
      let (stored, appended, _) =
        handle_patch-appends S L v now id headers body w u plan ready.found planned fits ready.whole
          plain.no_chunk_hook ready.covered in
      let front : length (take u.offset old) ≡ u.offset =
        omega (arith, length-take {0} u.offset old, ready.covered) in
      let size : length (take (u.offset + length body) new) ≡ u.offset + length body =
        omega (arith, ap length appended, length-append {0} (take u.offset old) body, front) in
      (
        record {
          upload = extended u (length body) plan.effective_length;
          found = stored;
          whole = ready.whole;
          not_final = ready.not_final;
          covered = omega (arith, size, length-take {0} (u.offset + length body) new);
        },
        rw ready.found front,
        rw (stored, ready.found) appended,
      )

  pub handle_patch-IsReady :
      (now : ℕ) (headers : Dict String) (body : Bytes) (w : World S.State)
      → IsReady S id w.store
      → IsReady S id (handle_patch S v now id headers body w).1.store
  handle_patch-IsReady now headers body w ready =
      elim (Checked-cases (plan_patch v now ready.upload headers body)) [
        | inl (plan, planned) ↦ elim (Fits-cases S L plan.commit_length) [
          | inl fits ↦ (accepted-IsReady now headers body w plan ready planned fits).0
          | inr (m, commits, large) ↦
              let (e, raised) =
                handle_patch-raises S L v now id headers body w ready.upload plan m ready.found
                  planned commits large in
              rw raised ready
        ]
        | inr (r, refused) ↦
            rw
              ((handle_patch-refuses S v now id headers body w).1 ready.upload r ready.found
                refused)
              ready
      ]

  pub patch_status : (plan : PatchPlan) → (patch_response v plan).status ≡ 204
  unfolding patch_response
  patch_status plan = refl

  -- The offset that the answer tells the client.
  patch_told :
      (plan : PatchPlan) (n size : ℕ)
      → moved_offset n size (patch_response v plan).headers ≡ some plan.new_offset
  unfolding moved_offset Dict.get patch_response
  patch_told plan n size = rw (str-not_empty plan.new_offset, int-str plan.new_offset) refl

  pub length-acknowledged :
      (s : S.State) (ready : IsReady S id s) → length (acknowledged S id s) ≡ ready.upload.offset
  length-acknowledged s ready =
      let bytes = bytes_or_empty (S.read_file s id) in
      rw ready.found (omega (arith, length-take {0} ready.upload.offset bytes, ready.covered))

  accepted-PatchWire :
      (plan : PatchPlan) (n : ℕ) (body before after : Bytes)
      → length before ≡ n
      → plan.new_offset ≡ n + length body
      → after ≡ before ++ body
      → PatchWire (to_wire (ok (patch_response v plan))) n body before after
  accepted-PatchWire plan n body before after counted moves grown = (
    λ _. ((counted, grown), patch_told plan n (length body) ∙ ap (λ (k : ℕ). some k) moves),
    λ e. cc (rw (patch_status plan) at e),
    λ e. absurd (omega (arith, patch_status plan, e)),
  )

  refused-PatchWire :
      (r : Response) (n offset : ℕ) (body before : Bytes)
      → length before ≡ offset
      → is_success r.status ≡ false
      → (r.status ≡ 409 → n ≢ offset)
      → PatchWire (to_wire (ok r)) n body before before
  refused-PatchWire r n offset body before counted failed conflict =
      (λ e. cc (failed, e), λ _. refl, λ e same. conflict e (sym same ∙ counted))

  raised-PatchWire :
      (e : Error) (n : ℕ) (body before : Bytes) → PatchWire (to_wire (raise e)) n body before before
  raised-PatchWire e n body before =
      (λ good. cc good, λ _. refl, λ conflict. absurd (omega (arith, conflict)))

  accepted_lem :
      (now : ℕ) (headers : Dict String) (body : Bytes) (w : World S.State) (n : ℕ)
      (ready : IsReady S id w.store) (plan : PatchPlan)
      → plan_patch v now ready.upload headers body ≡ accept plan
      → n ≡ ready.upload.offset
      → let (r, w') = handle_patch S v now id headers body w in
        PatchWire (to_wire r) n body (acknowledged S id w.store) (acknowledged S id w'.store)
  accepted_lem now headers body w n ready plan planned at_n =
      let u = ready.upload in
      let fine = plan_patch-IsAcceptable v now u headers body plan planned in
      elim (Fits-cases S L plan.commit_length) [
        | inl fits ↦
            rw (patch-answer now headers body w u plan ready.found planned fits ready.whole) (
              accepted-PatchWire plan n body (acknowledged S id w.store) _
                (length-acknowledged w.store ready ∙ sym at_n) (rw at_n fine.moves)
                (accepted-IsReady now headers body w plan ready planned fits).2)
        | inr (m, commits, large) ↦
            let (e, raised) =
              handle_patch-raises S L v now id headers body w u plan m ready.found planned commits
                large in
            rw raised (raised-PatchWire e n body (acknowledged S id w.store))
      ]

  -- The contract for a request that carries the offset `n`.
  pub handle_patch-PatchWire :
      (now : ℕ) (headers : Dict String) (body : Bytes) (w : World S.State) (n : ℕ)
      → IsReady S id w.store
      → Dict.get headers "upload-offset" ≡ some (str n)
      → let (r, w') = handle_patch S v now id headers body w in
        PatchWire (to_wire r) n body (acknowledged S id w.store) (acknowledged S id w'.store)
  handle_patch-PatchWire now headers body w n ready sent =
      let u = ready.upload in
      let given : nonempty (Dict.get headers "upload-offset") ≡ some (str n) =
        rw (sent, str-not_empty n) refl in
      let rejects = plan_patch-Refuses v now u headers body (str n) n given (int-str n) in
      let counted = length-acknowledged w.store ready in
      elim (Checked-cases (plan_patch v now u headers body)) [
        | inl (plan, planned) ↦ accepted_lem now headers body w n ready plan planned (
            sym
              (plan_patch-at_offset v now u headers body plan (str n) n given (int-str n) planned))
        | inr (r, refused) ↦
            let (failed, conflict) = rw refused at rejects in
            rw ((handle_patch-refuses S v now id headers body w).1 u r ready.found refused) (
              refused-PatchWire r n u.offset body (acknowledged S id w.store) counted failed
                conflict)
      ]
