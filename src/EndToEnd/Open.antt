-- ===== src/EndToEnd/Open.antt =====
-- What a plain server with free locks makes of the uploader's requests, for an open upload whose
-- length is known.
use mathlib.Core.Path.{subst}
use resumable_upload.Prelude.{
  ℕ, ◌+◌, ◌≤◌, ◌<◌, ◌≡◌, refl, sym, ap, inl, inr, String, Bool, true, false, Option, none, some, [],
  if◌then◌else◌, is_empty, Bytes, length, arith, Bool-cases,
}
use resumable_upload.Prelude.Dict
use resumable_upload.Prelude.Dict.{Dict}
use resumable_upload.Exec.{ok}
use resumable_upload.Locks.{LockBackend}
use resumable_upload.Storage.{Upload, Storage}
use resumable_upload.Storage.Contract.{IsLawful}
use resumable_upload.Server.{Server, World, Context, raw, error_response, has_expired}
use resumable_upload.Server.Head.{handle_head, build_head_response, head_headers}
use resumable_upload.Server.Patch.Appends.{extended}
use resumable_upload.Server.Request.{
  Site, patch, head, normalize_headers, route, dispatch, with_lock, handle_request,
}
use resumable_upload.Server.Request.Appends.{counted, handle_request-appends}
use resumable_upload.Client.Contract.{Succeeds, SaysLength}
use resumable_upload.EndToEnd.{IsPlainServer, to_wire, IsReady}
use resumable_upload.EndToEnd.Accepts.{
  IsChunkOf, HasRoom, gate-accepts, admit-accepts, plan_for, plan_patch-accepts,
}
use resumable_upload.EndToEnd.Patches.{patch-answer, patch_status}
use resumable_upload.EndToEnd.Requests.{handle_request-dispatches}

-- In a `Free` state the lock of the upload is got, and it is free again after its release.
pub record IsNeverBusy (K : LockBackend) (id : String) (Free : K.State → Type 0) : Type 0 where
  pub acquires :
      (locks : K.State)
      → Free locks
      → (token : String) × (locks' : K.State) × (K.acquire id locks ≡ (some token, locks'))
        × Free (K.release id token locks')

-- The upload is there with this length, does not expire, and is complete at its end only.
abbrev pub IsOpen : ℕ → Option Upload → Type 0
IsOpen total none = ⊥
IsOpen total (some u) =
    (u.upload_length ≡ some total) × (u.expires_at ≡ none) × (u.completed ≡ true → total ≤ u.offset)

extended-IsOpen :
    (u : Upload) (n total : ℕ) → u.expires_at ≡ none → IsOpen total (some (extended u n total))
extended-IsOpen u n total forever = (refl, forever, λ done. ground (arith, done))

-- HEAD does not call the length deferred.
known_length :
    (v : Server) (u : Upload) (total : ℕ)
    → u.upload_length ≡ some total
    → u.expires_at ≡ none
    → u.is_partial ≡ false
    → u.concat_partial_ids ≡ []
    → Dict.get (head_headers v u) "Upload-Defer-Length" ≡ none
unfolding head_headers Dict.get
known_length v u total declared forever whole not_final = elim (Bool-cases (is_empty u.metadata)) [
  | inl bare ↦ rw (declared, forever, whole, not_final, bare) refl
  | inr said ↦ rw (declared, forever, whole, not_final, said) refl
]

built-SaysLength :
    (v : Server) (now : ℕ) (u : Upload) (total : ℕ)
    → u.upload_length ≡ some total
    → u.expires_at ≡ none
    → u.is_partial ≡ false
    → u.concat_partial_ids ≡ []
    → SaysLength (to_wire (ok (build_head_response v now (some u))))
unfolding build_head_response
built-SaysLength v now u total declared forever whole not_final =
    let known = known_length v u total declared forever whole not_final in
    subst
      (λ (late : Bool). SaysLength (
        to_wire (
          ok (
            if late
            then error_response 410 "Upload has expired"
            else record { status = 200; headers = head_headers v u; body = raw [] }))))
      (sym (ap (λ (t : Option ℕ). has_expired t now) forever)) (refl, rw known refl)

handle_head-builds :
    (S : Storage) (v : Server) (now : ℕ) (id : String) (w : World S.State) (u : Upload)
    → S.get_upload w.store id ≡ some u
    → u.concat_partial_ids ≡ []
    → handle_head S v now id w ≡ (ok (build_head_response v now (some u)), w)
unfolding handle_head
handle_head-builds S v now id w u found not_final = rw (found, not_final) refl

module _ (S : Storage) {can_store : ℕ → Bool} (L : IsLawful S can_store) (K : LockBackend)
    (v : Server) (plain : IsPlainServer v) (c : Context) (id path : String) (total : ℕ) where
  -- A lock is got, and a chunk is accepted that continues the upload.
  pub handle_request-Succeeds :
      (Free : K.State → Type 0) (never_busy : IsNeverBusy K id Free) (raw_headers : Dict String)
      (body : Bytes) (s : Site S.State K.State) (ready : IsReady S id s.world.store)
      → route v "PATCH" path ≡ patch id
      → IsOpen total (S.get_upload s.world.store id)
      → Free s.locks
      → IsChunkOf (normalize_headers raw_headers) ready.upload.offset
      → 0 < length body
      → ready.upload.offset + length body ≤ total
      → HasRoom v (length body)
      → let (r, s') = handle_request S K v c "PATCH" path raw_headers body s in
        Succeeds (to_wire r) × IsOpen total (S.get_upload s'.world.store id) × Free s'.locks
  unfolding dispatch with_lock
  handle_request-Succeeds Free never_busy raw_headers body s ready routed is_open free sent
        some_bytes fits room =
      let u = ready.upload in
      let (declared, forever, at_end) = rw ready.found at is_open in
      let unfinished : u.completed ≡ false = elim (Bool-cases u.completed) [
        | inl done ↦ absurd (omega (arith, at_end done, some_bytes, fits))
        | inr e ↦ e
      ] in
      let headers = normalize_headers raw_headers in
      let planned =
        plan_patch-accepts v c.now u total headers body sent forever unfinished ready.not_final
          declared fits room in
      let (token, locks, got, again) = never_busy.acquires s.locks free in
      let gated = gate-accepts v "PATCH" headers (length body) (inl refl) room in
      let admitted = admit-accepts v plain "PATCH" path headers (inl refl) sent.version in
      let w = counted S K v "PATCH" s.world in
      let (answer, _, _) =
        handle_request-dispatches S K v plain c "PATCH" path raw_headers body s gated admitted in
      let (stored, _, _, released) =
        handle_request-appends S L K v c "PATCH" path raw_headers body s id token locks u
          (plan_for v u total body) plain.no_expiry plain.no_chunk_hook gated admitted routed got
          ready.found planned tt ready.whole ready.covered in
      let said =
        patch-answer S L v plain id c.now headers body w u (plan_for v u total body) ready.found
          planned tt ready.whole in
      (
        rw (answer, routed, got, said, patch_status S L v plain id (plan_for v u total body)) refl,
        rw stored (extended-IsOpen u (length body) total forever),
        rw released again,
      )

  -- HEAD answers with success and without a deferred length, and changes neither the upload nor the
  -- locks.
  pub handle_request-says :
      (raw_headers : Dict String) (body : Bytes) (s : Site S.State K.State)
      (ready : IsReady S id s.world.store)
      → route v "HEAD" path ≡ head id
      → IsOpen total (S.get_upload s.world.store id)
      → Dict.get (normalize_headers raw_headers) "tus-resumable" ≡ some "1.0.0"
      → HasRoom v (length body)
      → let (r, s') = handle_request S K v c "HEAD" path raw_headers body s in
        SaysLength (to_wire r) × (s'.world.store ≡ s.world.store) × (s'.locks ≡ s.locks)
  unfolding dispatch
  handle_request-says raw_headers body s ready routed is_open version room =
      let u = ready.upload in
      let (declared, forever, _) = rw ready.found at is_open in
      let headers = normalize_headers raw_headers in
      let gated = gate-accepts v "HEAD" headers (length body) (inr refl) room in
      let admitted = admit-accepts v plain "HEAD" path headers (inr refl) version in
      let (answer, store, locks) =
        handle_request-dispatches S K v plain c "HEAD" path raw_headers body s gated admitted in
      let w = counted S K v "HEAD" s.world in
      let said = handle_head-builds S v c.now id w u ready.found ready.not_final in
      let says = built-SaysLength v c.now u total declared forever ready.whole ready.not_final in
      (rw (answer, routed, said) says, rw (store, routed, said) refl, rw (locks, routed) refl)
