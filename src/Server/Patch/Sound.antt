-- ===== src/Server/Patch/Sound.antt =====
-- PATCH keeps the records of all uploads true to their files.
use resumable_upload.Prelude.{
  ap, ℕ, Bool, ◌+◌, ◌≤◌, ◌≡◌, String, ◌==◌, eq_iff, false, none, some, ◌++◌, Bytes, length, take,
  length-append, length-take, arith, Option-cases, Bool-cases, inl, inr,
}
use resumable_upload.Prelude.Dict.{Dict}
use resumable_upload.Storage.{Upload, Storage}
use resumable_upload.Storage.Contract.{IsLawful, Fits, bytes_or_empty}
use resumable_upload.Storage.Sound.{IsSound, AllSound, moved, transfer}
use resumable_upload.Server.{Server, World}
use resumable_upload.Server.Checked.{accept, Checked-cases}
use resumable_upload.Server.Patch.{PatchPlan, plan_patch}
use resumable_upload.Server.Patch.Accepted.{plan_patch-IsAcceptable}
use resumable_upload.Server.Patch.Appends.{extended, handle_patch-appends}
use resumable_upload.Server.Patch.Replies.{handle_patch-refuses, handle_patch-raises}
use resumable_upload.Server.Patch.Writes.{Fits-cases}
use resumable_upload.Server.Patch.Handler.{handle_patch}

module _ (S : Storage) {can_store : ℕ → Bool} (L : IsLawful S can_store) (v : Server) where
  extended-IsSound :
      (s : S.State) (id : String) (u : Upload) (body : Bytes) (n : ℕ)
      → u.offset + length body ≤ n
      → u.offset + length body ≤ length (bytes_or_empty (S.read_file s id))
      → IsSound S s id (extended u (length body) n)
  extended-IsSound s id u body n fits covered = record {
    covered = covered;
    bounded = λ m e. ground arith;
    whole = λ e. ground arith;
  }

  covered_by :
      (old new body : Bytes) (o : ℕ)
      → o ≤ length old
      → take (o + length body) new ≡ take o old ++ body
      → o + length body ≤ length new
  covered_by old new body o covered e = omega (
    arith,
    ap length e,
    length-take {0} (o + length body) new,
    length-take {0} o old,
    length-append {0} (take o old) body,
  )

  accepted-AllSound :
      (now : ℕ) (id : String) (headers : Dict String) (body : Bytes) (w : World S.State)
      (u : Upload) (plan : PatchPlan)
      → S.get_upload w.store id ≡ some u
      → plan_patch v now u headers body ≡ accept plan
      → Fits can_store plan.commit_length
      → AllSound S w.store
      → u.is_partial ≡ false
      → v.on_chunk_received ≡ none
      → AllSound S (handle_patch S v now id headers body w).1.store
  unfolding AllSound
  accepted-AllSound now id headers body w u plan found planned storable sound whole quiet j u'
        found' =
      let s = (handle_patch S v now id headers body w).1.store in
      let covered = (sound id u found).covered in
      let fine = plan_patch-IsAcceptable v now u headers body plan planned in
      let post =
        handle_patch-appends S L v now id headers body w u plan found planned storable whole quiet
          covered in
      elim (Bool-cases (id == j)) [
        | inl same ↦
            let fits : u.offset + length body ≤ plan.effective_length =
              rw (← fine.moves) fine.fits in
            moved S s id j _ u' ((eq_iff id j).0 same) post.0 found' (
              extended-IsSound s id u body plan.effective_length fits (
                covered_by (bytes_or_empty (S.read_file w.store id))
                  (bytes_or_empty (S.read_file s id)) body u.offset covered post.1))
        | inr other ↦
            transfer S w.store s j u' (post.2 j other).1
              (sound j u' (rw (← (post.2 j other).0) found'))
      ]

  -- PATCH keeps every upload sound, however it is answered: on a lawful storage, on a server
  -- without on_chunk_received, where the upload that it names is not a partial one.
  pub handle_patch-AllSound :
      (now : ℕ) (id : String) (headers : Dict String) (body : Bytes) (w : World S.State)
      → AllSound S w.store
      → ((u : Upload) → S.get_upload w.store id ≡ some u → u.is_partial ≡ false)
      → v.on_chunk_received ≡ none
      → AllSound S (handle_patch S v now id headers body w).1.store
  unfolding AllSound
  handle_patch-AllSound now id headers body w sound whole quiet =
      let refused = handle_patch-refuses S v now id headers body w in
      elim (Option-cases (S.get_upload w.store id)) [
        | inl missing ↦ rw (refused.0 missing) sound
        | inr (u, found) ↦ elim (Checked-cases (plan_patch v now u headers body)) [
          | inl (plan, planned) ↦ elim (Fits-cases S L plan.commit_length) [
            | inl storable ↦
                accepted-AllSound now id headers body w u plan found planned storable sound
                  (whole u found) quiet
            | inr (n, commits, large) ↦
                let (e, raised) =
                  handle_patch-raises S L v now id headers body w u plan n found planned commits
                    large in
                rw raised sound
          ]
          | inr (r, planned) ↦ rw (refused.1 u r found planned) sound
        ]
      ]
