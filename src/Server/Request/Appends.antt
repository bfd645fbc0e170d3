-- ===== src/Server/Request/Appends.antt =====
-- A PATCH request from its entry into `handle_request` to the storage.
use resumable_upload.Prelude.{
  ℕ, Bool, ◌+◌, ◌≤◌, ◌≡◌, refl, String, ◌==◌, false, none, some, [], ◌∷◌, ◌++◌, leb, length, take,
  Bytes, Bool-cases, inl, inr,
}
use resumable_upload.Prelude.Dict.{Dict}
use resumable_upload.Exec.{ok, Result-cases}
use resumable_upload.Locks.{LockBackend}
use resumable_upload.Storage.{Upload, Storage}
use resumable_upload.Storage.Contract.{IsLawful, Fits, bytes_or_empty}
use resumable_upload.Server.{Server, World, Context, count_in}
use resumable_upload.Server.Checked.{accept}
use resumable_upload.Server.Patch.{PatchPlan, plan_patch}
use resumable_upload.Server.Patch.Appends.{extended, handle_patch-appends}
use resumable_upload.Server.Patch.Handler.{handle_patch}
use resumable_upload.Server.Request.{
  Site, normalize_headers, gate, admit, route, patch, dispatch, with_lock, clean_up, count_error,
  serve, handle_request,
}

module _ (S : Storage) (K : LockBackend) (v : Server) where
  pub count_error-keeps_store :
      (status : ℕ) (s : Site S.State K.State)
      → ((count_error S K v status s).0 ≡ ok tt)
        × ((count_error S K v status s).1.world.store ≡ s.world.store)
        × ((count_error S K v status s).1.locks ≡ s.locks)
  unfolding count_error
  count_error-keeps_store status s = elim (Bool-cases (leb 400 status)) [
    | inl e ↦ rw e (refl, refl, refl)
    | inr e ↦ rw e (refl, refl, refl)
  ]

  -- The world and the locks after a PATCH that holds its lock.
  abbrev patched :
      Context
      → Dict String
      → Bytes
      → String
      → String
      → K.State
      → Site S.State K.State
      → Site S.State K.State
  patched c headers body id token locks s = record s {
    world = (handle_patch S v c.now id headers body s.world).1;
    locks = K.release id token locks;
  }

  dispatch-patches :
      (c : Context) (headers : Dict String) (body : Bytes) (s : Site S.State K.State) (id : String)
      (token : String) (locks : K.State)
      → K.acquire id s.locks ≡ (some token, locks)
      → dispatch S K v c headers body (patch id) s ≡ (
        (handle_patch S v c.now id headers body s.world).0,
        patched c headers body id token locks s,
      )
  unfolding dispatch with_lock
  dispatch-patches c headers body s id token locks got = rw got refl

  pub clean_up_lem :
      (now : ℕ) (s : Site S.State K.State)
      → v.upload_expiry ≡ none
      → clean_up S K v now s ≡ (ok tt, s)
  unfolding clean_up
  clean_up_lem now s forever = rw forever refl

  serve-patches :
      (c : Context) (path : String) (headers : Dict String) (body : Bytes)
      (s : Site S.State K.State) (id : String) (token : String) (locks : K.State)
      → v.upload_expiry ≡ none
      → route v "PATCH" path ≡ patch id
      → K.acquire id s.locks ≡ (some token, locks)
      → ((serve S K v c "PATCH" path headers body s).1.world.store
          ≡ (handle_patch S v c.now id headers body s.world).1.store)
        × ((serve S K v c "PATCH" path headers body s).1.locks ≡ K.release id token locks)
  unfolding serve
  serve-patches c path headers body s id token locks forever routed got =
      let s1 = patched c headers body id token locks s in
      elim (Result-cases (handle_patch S v c.now id headers body s.world).0) [
        | inl (r, e) ↦
            let (fine, same_store, same_locks) = count_error-keeps_store r.status s1 in
            rw
              (
                routed,
                dispatch-patches c headers body s id token locks got,
                e,
                clean_up_lem c.now s1 forever,
                fine,
              )
              (same_store, same_locks)
        | inr (x, e) ↦
            rw (routed, dispatch-patches c headers body s id token locks got, e) (refl, refl)
      ]

  abbrev pub counted : String → World S.State → World S.State
  counted method w = record w {
    metrics = count_in w.metrics "tusd_requests_total" 1 (("method", method) ∷ []);
  }

  handle_request-patches :
      (c : Context) (method path : String) (raw_headers : Dict String) (body : Bytes)
      (s : Site S.State K.State) (id : String) (token : String) (locks : K.State)
      → v.upload_expiry ≡ none
      → gate v method (normalize_headers raw_headers) (length body) ≡ accept "PATCH"
      → admit v "PATCH" path (normalize_headers raw_headers) ≡ accept tt
      → route v "PATCH" path ≡ patch id
      → K.acquire id s.locks ≡ (some token, locks)
      → let s' = (handle_request S K v c method path raw_headers body s).1 in
        (s'.world.store
          ≡ (handle_patch S v c.now id
              (normalize_headers raw_headers)
              body
              (counted method s.world)).1.store)
        × (s'.locks ≡ K.release id token locks)
  unfolding handle_request
  handle_request-patches c method path raw_headers body s id token locks forever gated admitted
        routed got =
      rw (gated, admitted)
        (serve-patches c path (normalize_headers raw_headers) body
          (record s { world = counted method s.world }) id token locks forever routed got)

module _ (S : Storage) {can_store : ℕ → Bool} (L : IsLawful S can_store) (K : LockBackend)
    (v : Server) where
  -- A request that goes on as a PATCH of an upload, be it a PATCH or a POST with a method override,
  -- on a server without expiry and on_chunk_received: when it passes the gates, the lock is got,
  -- and the plan is accepted for an upload that is not partial and whose file reaches its offset,
  -- and the length that it commits, if any, can be stored, then the offset moves by the length of
  -- the body, the file holds the old bytes and then the body up to the new offset, every other
  -- upload and file is as before, and the lock is released with its token.
  pub handle_request-appends :
      (c : Context) (method path : String) (raw_headers : Dict String) (body : Bytes)
      (s : Site S.State K.State) (id token : String) (locks : K.State) (u : Upload)
      (plan : PatchPlan)
      → v.upload_expiry ≡ none
      → v.on_chunk_received ≡ none
      → gate v method (normalize_headers raw_headers) (length body) ≡ accept "PATCH"
      → admit v "PATCH" path (normalize_headers raw_headers) ≡ accept tt
      → route v "PATCH" path ≡ patch id
      → K.acquire id s.locks ≡ (some token, locks)
      → S.get_upload s.world.store id ≡ some u
      → plan_patch v c.now u (normalize_headers raw_headers) body ≡ accept plan
      → Fits can_store plan.commit_length
      → u.is_partial ≡ false
      → u.offset ≤ length (bytes_or_empty (S.read_file s.world.store id))
      → let s' = (handle_request S K v c method path raw_headers body s).1 in
        (S.get_upload s'.world.store id ≡ some (extended u (length body) plan.effective_length))
        × (take (u.offset + length body) (bytes_or_empty (S.read_file s'.world.store id))
            ≡ take u.offset (bytes_or_empty (S.read_file s.world.store id)) ++ body)
        × ((j : String)
            → (id == j) ≡ false
            → (S.get_upload s'.world.store j ≡ S.get_upload s.world.store j)
              × (S.read_file s'.world.store j ≡ S.read_file s.world.store j))
        × (s'.locks ≡ K.release id token locks)
  handle_request-appends c method path raw_headers body s id token locks u plan forever quiet gated
        admitted routed got found planned fits whole covered =
      let (same_store, same_locks) =
        handle_request-patches S K v c method path raw_headers body s id token locks forever gated
          admitted routed got in
      let (stored, appended, others) =
        handle_patch-appends S L v c.now id (normalize_headers raw_headers) body
          (counted S K v method s.world) u plan found planned fits whole quiet covered in
      rw same_store (stored, appended, others, same_locks)
