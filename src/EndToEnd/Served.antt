-- ===== src/EndToEnd/Served.antt =====
-- The two requests of the uploader, as the client's contract wants them answered.
use resumable_upload.Prelude.{
  ℕ, Bool, ◌≡◌, refl, sym, ◌∙◌, inl, inr, ◌⊎◌, String, true, false, some, Bytes, str, arith,
  Bool-cases, Option-cases,
}
use resumable_upload.Prelude.Dict
use resumable_upload.Prelude.Dict.{Dict}
use resumable_upload.Prelude.Text.Numbers.{int-str}
use resumable_upload.Exec.{Result, ok}
use resumable_upload.Locks.{LockBackend}
use resumable_upload.Storage.{Storage}
use resumable_upload.Storage.Contract.{IsLawful}
use resumable_upload.Server.{Server, World, Context, Response, error_response, has_expired}
use resumable_upload.Server.Head.{handle_head}
use resumable_upload.Server.Head.Reports.{handle_head-reports}
use resumable_upload.Server.Request.{
  Site, patch, head, normalize_headers, route, dispatch, with_lock, handle_request,
}
use resumable_upload.Server.Request.Appends.{counted}
use resumable_upload.Client.Contract.{PatchWire, HeadWire}
use resumable_upload.Client.Uploader.{is_success}
use resumable_upload.EndToEnd.{IsPlainServer, to_wire, IsReady, acknowledged}
use resumable_upload.EndToEnd.Patches.{
  handle_patch-IsReady, handle_patch-PatchWire, length-acknowledged,
}
use resumable_upload.EndToEnd.Requests.{handle_request-cases}

module _ (S : Storage) {can_store : ℕ → Bool} (L : IsLawful S can_store) (K : LockBackend)
    (v : Server) (plain : IsPlainServer v) (c : Context) (id path : String) where
  -- The outcome of a PATCH with these headers, for a storage that was `s`.
  abbrev Patched : Dict String → Bytes → S.State → Result Response × Site S.State K.State → Type 0
  Patched headers body s (r, t) =
      IsReady S id t.world.store
      × ((n : ℕ)
          → Dict.get headers "upload-offset" ≡ some (str n)
          → PatchWire (to_wire r) n body (acknowledged S id s) (acknowledged S id t.world.store))

  turned_away :
      (status : ℕ) (r : Response) (n : ℕ) (body before after : Bytes)
      → r.status ≡ status
      → is_success status ≡ false
      → (status ≡ 409 → ⊥)
      → after ≡ before
      → PatchWire (to_wire (ok r)) n body before after
  turned_away status r n body before after is failed no_conflict same =
      (λ e. cc (failed, is, e), λ _. same, λ e _. no_conflict (sym is ∙ e))

  refused_early :
      (r : Response) (n : ℕ) (body before : Bytes)
      → (r.status ≡ 413) ⊎ (r.status ≡ 412)
      → PatchWire (to_wire (ok r)) n body before before
  refused_early r n body before (inl e) =
      turned_away 413 r n body before before e refl (λ k. omega (arith, k)) refl
  refused_early r n body before (inr e) =
      turned_away 412 r n body before before e refl (λ k. omega (arith, k)) refl

  locked-Patched :
      (headers : Dict String) (body : Bytes) (s : Site S.State K.State)
      → IsReady S id s.world.store
      → Patched headers body s.world.store (dispatch S K v c headers body (patch id) s)
  unfolding dispatch with_lock
  locked-Patched headers body s ready = elim (Option-cases (K.acquire id s.locks).0) [
    | inl busy ↦ rw busy (
      ready,
      λ n _.
          turned_away 423 (error_response 423 "Upload locked; retry later") n body _ _ refl refl
            (λ e. omega (arith, e)) refl,
    )
    | inr (token, got) ↦ rw got (
      handle_patch-IsReady S L v plain id c.now headers body s.world ready,
      λ n sent. handle_patch-PatchWire S L v plain id c.now headers body s.world n ready sent,
    )
  ]

  pub handle_request-Patched :
      (raw_headers : Dict String) (body : Bytes) (s : Site S.State K.State)
      → route v "PATCH" path ≡ patch id
      → IsReady S id s.world.store
      → Patched
          (normalize_headers raw_headers)
          body
          s.world.store
          (handle_request S K v c "PATCH" path raw_headers body s)
  handle_request-Patched raw_headers body s routed ready =
      elim (handle_request-cases S K v plain c "PATCH" path raw_headers body s (inl refl)) [
        | inl (r, answer, status, same) ↦
            rw (answer, same)
              (ready, λ n _. refused_early r n body (acknowledged S id s.world.store) status)
        | inr (answer, same) ↦
            rw (answer, same, routed)
              (locked-Patched (normalize_headers raw_headers) body
                (record s { world = counted S K v "PATCH" s.world }) ready)
      ]

  early_fails :
      (r : Response) → (r.status ≡ 413) ⊎ (r.status ≡ 412) → is_success r.status ≡ true → ⊥
  early_fails r (inl e) success = cc (rw e at success)
  early_fails r (inr e) success = cc (rw e at success)

  -- The outcome of a HEAD, for a storage that was `s`.
  abbrev Asked : S.State → Result Response × Site S.State K.State → Type 0
  Asked s (r, t) =
      IsReady S id t.world.store
      × HeadWire (to_wire r) (acknowledged S id s) (acknowledged S id t.world.store)

  handle_head-Asked :
      (w : World S.State)
      → IsReady S id w.store
      → let (r, w') = handle_head S v c.now id w in
        (w'.store ≡ w.store)
        × HeadWire (to_wire r) (acknowledged S id w.store) (acknowledged S id w.store)
  handle_head-Asked w ready =
      let u = ready.upload in
      let (late, live) =
        handle_head-reports S v c.now id w u ready.found (rw ready.not_final refl) in
      elim (Bool-cases (has_expired u.expires_at c.now)) [
        | inl e ↦ rw (late e) (refl, (refl, λ success. cc success))
        | inr e ↦
            let (r, answer, status, offset, _) = live e in
            rw answer (
              refl,
              (
                refl,
                λ _. (
                  str u.offset,
                  offset,
                  rw (int-str u.offset, length-acknowledged S L v plain id w.store ready) refl,
                ),
              ),
            )
      ]

  pub handle_request-Asked :
      (raw_headers : Dict String) (body : Bytes) (s : Site S.State K.State)
      → route v "HEAD" path ≡ head id
      → IsReady S id s.world.store
      → Asked s.world.store (handle_request S K v c "HEAD" path raw_headers body s)
  unfolding dispatch
  handle_request-Asked raw_headers body s routed ready =
      elim (handle_request-cases S K v plain c "HEAD" path raw_headers body s (inr refl)) [
        | inl (r, answer, status, same) ↦
            rw (answer, same) (ready, (refl, λ success. absurd (early_fails r status success)))
        | inr (answer, same) ↦
            let w1 = counted S K v "HEAD" s.world in
            let (kept, told) = handle_head-Asked w1 ready in
            rw (answer, same, routed) (rw kept (ready, told))
      ]
