-- ===== src/EndToEnd/Requests.antt =====
-- What `handle_request` makes of the two requests of the uploader, on a plain server.
use resumable_upload.Prelude.{
  ℕ, ◌≡◌, refl, ◌⊎◌, inl, inr, String, ◌==◌, ◌&&◌, ◌||◌, not, Bool, true, false, ltb, Bytes, length,
  Bool-cases,
}
use resumable_upload.Prelude.Dict
use resumable_upload.Prelude.Dict.{Dict}
use resumable_upload.Exec.{ok, Result-cases}
use resumable_upload.Headers.{add_cors_headers}
use resumable_upload.Locks.{LockBackend}
use resumable_upload.Storage.{Storage}
use resumable_upload.Server.{Server, Context, Response, error_response}
use resumable_upload.Server.Checked.{accept, refuse}
use resumable_upload.Server.Request.{
  Site, normalize_headers, override_method, check_sizes, gate, run_incoming_hook, check_version,
  is_version, admit, route, dispatch, with_cors, serve, handle_request,
}
use resumable_upload.Server.Request.Appends.{count_error-keeps_store, clean_up_lem, counted}
use resumable_upload.EndToEnd.{IsPlainServer}

-- The uploader's two methods.
abbrev pub Plain : String → Type 0
Plain method = (method ≡ "PATCH") ⊎ (method ≡ "HEAD")

sizes_cases :
    (v : Server) (method : String) (size : ℕ)
    → (check_sizes v method size ≡ accept tt)
      ⊎ ((r : Response) × (check_sizes v method size ≡ refuse r) × (r.status ≡ 413))
unfolding check_sizes
sizes_cases v method size =
    elim (Bool-cases (method == "PATCH" && ltb 0 v.max_chunk_size && ltb v.max_chunk_size size)) [
      | inl big ↦ inr (error_response 413 "Chunk exceeds maximum chunk size", rw big refl, refl)
      | inr fits ↦ elim (Bool-cases (ltb 0 v.max_size && ltb v.max_size size)) [
        | inl large ↦
            inr (error_response 413 "Request entity too large", rw (fits, large) refl, refl)
        | inr small ↦ inl (rw (fits, small) refl)
      ]
    ]

pub not_post : (method : String) → Plain method → (method == "POST") ≡ false
not_post method (inl e) = rw e refl
not_post method (inr e) = rw e refl

gate_cases :
    (v : Server) (method : String) (headers : Dict String) (size : ℕ)
    → Plain method
    → (gate v method headers size ≡ accept method)
      ⊎ ((r : Response) × (gate v method headers size ≡ refuse r) × (r.status ≡ 413))
unfolding gate override_method
gate_cases v method headers size m = elim (sizes_cases v method size) [
  | inl fits ↦ inl (rw (not_post method m, fits) refl)
  | inr (r, large, status) ↦ inr (r, rw (not_post method m, large) refl, status)
]

pub with_version :
    (method : String) → Plain method → not (method == "OPTIONS" || method == "GET") ≡ true
with_version method (inl e) = rw e refl
with_version method (inr e) = rw e refl

admit_cases :
    (v : Server) (plain : IsPlainServer v) (method path : String) (headers : Dict String)
    → Plain method
    → (admit v method path headers ≡ accept tt)
      ⊎ ((r : Response) × (admit v method path headers ≡ refuse r) × (r.status ≡ 412))
unfolding admit run_incoming_hook check_version
admit_cases v plain method path headers m =
    elim (Bool-cases (is_version (Dict.get headers "tus-resumable"))) [
      | inl good ↦ inl (rw (plain.no_request_hook, with_version method m, good) refl)
      | inr bad ↦ inr (
        error_response 412 "Precondition Failed: Invalid TUS version",
        rw (plain.no_request_hook, with_version method m, bad) refl,
        refl,
      )
    ]

module _ (S : Storage) (K : LockBackend) (v : Server) (plain : IsPlainServer v) where
  with_cors_lem :
      (headers : Dict String) (preflight : Bool) (r : Response)
      → with_cors S K v headers preflight r ≡ r
  unfolding with_cors add_cors_headers
  with_cors_lem headers preflight r = rw plain.no_cors refl

  -- What comes after the handler changes neither its answer nor the storage.
  serve-keeps :
      (c : Context) (method path : String) (headers : Dict String) (body : Bytes)
      (s : Site S.State K.State)
      → let (r, s') = dispatch S K v c headers body (route v method path) s in
        ((serve S K v c method path headers body s).0 ≡ r)
        × ((serve S K v c method path headers body s).1.world.store ≡ s'.world.store)
        × ((serve S K v c method path headers body s).1.locks ≡ s'.locks)
  unfolding serve
  serve-keeps c method path headers body s =
      let d = dispatch S K v c headers body (route v method path) s in
      elim (Result-cases d.0) [
        | inl (r, e) ↦
            let (fine, same_store, same_locks) = count_error-keeps_store S K v r.status d.1 in
            rw
              (
                e,
                clean_up_lem S K v c.now d.1 plain.no_expiry,
                fine,
                with_cors_lem headers (method == "OPTIONS") r,
              )
              (refl, same_store, same_locks)
        | inr (x, e) ↦ rw e (refl, refl, refl)
      ]

  -- A request that passes the gates is answered by its handler.
  pub handle_request-dispatches :
      (c : Context) (method path : String) (raw_headers : Dict String) (body : Bytes)
      (s : Site S.State K.State)
      → gate v method (normalize_headers raw_headers) (length body) ≡ accept method
      → admit v method path (normalize_headers raw_headers) ≡ accept tt
      → let (r, s') = handle_request S K v c method path raw_headers body s in
        let (d, t) =
          dispatch S K v c
            (normalize_headers raw_headers)
            body
            (route v method path)
            (record s { world = counted S K v method s.world }) in
        (r ≡ d) × (s'.world.store ≡ t.world.store) × (s'.locks ≡ t.locks)
  unfolding handle_request
  handle_request-dispatches c method path raw_headers body s passes good =
      let s1 = record s { world = counted S K v method s.world } in
      rw (passes, good) (serve-keeps c method path (normalize_headers raw_headers) body s1)

  -- A request of the uploader is refused with the storage as it was, or reaches its route.
  pub handle_request-cases :
      (c : Context) (method path : String) (raw_headers : Dict String) (body : Bytes)
      (s : Site S.State K.State)
      → Plain method
      → let (r, s') = handle_request S K v c method path raw_headers body s in
        ((response : Response) × (r ≡ ok response)
          × ((response.status ≡ 413) ⊎ (response.status ≡ 412))
          × (s'.world.store ≡ s.world.store))
        ⊎ (let (d, t) =
              dispatch S K v c
                (normalize_headers raw_headers)
                body
                (route v method path)
                (record s { world = counted S K v method s.world }) in
            (r ≡ d) × (s'.world.store ≡ t.world.store))
  unfolding handle_request
  handle_request-cases c method path raw_headers body s m =
      let headers = normalize_headers raw_headers in
      elim (gate_cases v method headers (length body) m) [
        | inr (r, large, status) ↦
            inl (r, rw (large, with_cors_lem headers false r) refl, inl status, rw large refl)
        | inl passes ↦ elim (admit_cases v plain method path headers m) [
          | inr (r, bad, status) ↦ inl (
            r,
            rw (passes, bad, with_cors_lem headers (method == "OPTIONS") r) refl,
            inr status,
            rw (passes, bad) refl,
          )
          | inl good ↦
              let (same, same_store, _) =
                handle_request-dispatches c method path raw_headers body s passes good in
              inr (same, same_store)
        ]
      ]
