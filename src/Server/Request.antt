-- ===== src/Server/Request.antt =====
-- resumable_upload/server/core.py: `handle_request`, from the method override to the cleanup of
-- expired uploads.
pub mod Safety
pub mod Appends
use Prim.Native.String.{len}
use resumable_upload.Prelude.{
  ℕ, ◌+◌, ◌-◌, String, ◌<>◌, ◌==◌, starts_with, Bool, true, false, not, ◌&&◌, ◌||◌, Option, none,
  some, List, [], ◌∷◌, ◌++◌, if◌then◌else◌, is_some, or_default, ltb, leb, Bytes, length, strip,
  upper, lower, str, text_drop, text_length,
}
use resumable_upload.Prelude.Dict
use resumable_upload.Prelude.Dict.{Dict}
use resumable_upload.Exec.{Result, ok, raise, Exec, pure, lift, ◌>>=◌, ◌>>◌}
use resumable_upload.Headers.{add_cors_headers, validate_upload_id}
use resumable_upload.Locks.{LockBackend}
use resumable_upload.Storage.{Upload, Storage}
use resumable_upload.Server.{
  Server, World, Context, Response, HookResult, HookCall, tus_version, error_response, hook_error,
  invoke_pre_hook, on_store, count, called,
}
use resumable_upload.Server.Checked
use resumable_upload.Server.Checked.{Checked, accept, refuse, refuse_if}
use resumable_upload.Server.Create.Handler.{handle_create}
use resumable_upload.Server.Delete.{handle_delete}
use resumable_upload.Server.Download.{handle_get_download}
use resumable_upload.Server.Head.{handle_head}
use resumable_upload.Server.Options.{handle_options}
use resumable_upload.Server.Patch.Handler.{handle_patch}

-- {k.lower(): v for k, v in headers.items()}
lower_keys : Dict String → Dict String → Dict String
unfolding lower
lower_keys [] out = out
lower_keys ((k, x) ∷ headers) out = lower_keys headers (Dict.put out (lower k) x)

unfoldable pub normalize_headers : Dict String → Dict String
unfolding lower_keys
normalize_headers headers = lower_keys headers []

abbrev pub is_tunnelled : String → Bool
is_tunnelled m = m == "PATCH" || m == "DELETE" || m == "HEAD"

abbrev pub overridden : String → Checked String
overridden value =
    if value == ""
    then accept "POST"
    else if is_tunnelled value
    then accept value
    else refuse (error_response 400 ("Unsupported X-HTTP-Method-Override value: " <> value))

-- X-HTTP-Method-Override
unfoldable pub override_method : String → Dict String → Checked String
unfolding strip upper
override_method method headers =
    if method == "POST"
    then overridden (upper (strip (or_default (Dict.get headers "x-http-method-override") "")))
    else accept method

-- The gates on the size of the body.
unfoldable pub check_sizes : Server → String → ℕ → Checked Unit
check_sizes v method size =
    Checked.◌>>◌
      (refuse_if (method == "PATCH" && ltb 0 v.max_chunk_size && ltb v.max_chunk_size size) 413
        "Chunk exceeds maximum chunk size")
      (refuse_if (ltb 0 v.max_size && ltb v.max_size size) 413 "Request entity too large")

-- on_incoming_request
unfoldable pub run_incoming_hook : Server → String → String → Dict String → Checked Unit
run_incoming_hook v method path headers = elim v.on_incoming_request [
  | none ↦ accept tt
  | some hook ↦
      invoke_pre_hook (hook method path headers) (λ _. accept tt)
        (λ status body. refuse (hook_error status body))
]

abbrev pub is_version : Option String → Bool
is_version none = false
is_version (some t) = t == tus_version

unfoldable pub check_version : String → Dict String → Checked Unit
check_version method headers =
    refuse_if
      (not (method == "OPTIONS" || method == "GET")
        && not (is_version (Dict.get headers "tus-resumable")))
      412 "Precondition Failed: Invalid TUS version"

-- The method override and the gates on the size: the method that goes on.
unfoldable pub gate : Server → String → Dict String → ℕ → Checked String
unfolding override_method check_sizes
gate v wire_method headers size =
    Checked.◌>>=◌ (override_method wire_method headers)
      λ method. Checked.◌>>◌ (check_sizes v method size) (accept method)

-- The hook and the check of the version.
unfoldable pub admit : Server → String → String → Dict String → Checked Unit
unfolding run_incoming_hook check_version
admit v method path headers =
    Checked.◌>>◌ (run_incoming_hook v method path headers) (check_version method headers)

-- Where a request goes, by its method and path.
pub data Route : Type 0 where
  options creation not_found invalid_id : Route
  head patch download delete : String → Route

abbrev with_id : (String → Route) → String → Route
with_id route upload_id = if validate_upload_id upload_id then route upload_id else invalid_id

unfoldable pub route : Server → String → String → Route
unfolding validate_upload_id
route v method path =
    let prefix = v.base_path <> "/" in
    let below = starts_with path prefix in
    let upload_id = text_drop (text_length prefix) path in
    if method == "OPTIONS"
    then options
    else if method == "POST" && (path == v.base_path || path == prefix)
    then creation
    else if method == "HEAD" && below
    then with_id head upload_id
    else if method == "PATCH" && below
    then with_id patch upload_id
    else if method == "GET" && v.enable_downloads && below
    then with_id download upload_id
    else if method == "DELETE" && below
    then with_id delete upload_id
    else not_found

-- The whole server: what the handlers change, the locks, and the time of the last cleanup.
pub record Site (State Locks : Type 0) : Type 0 where
  pub world : World State
  pub locks : Locks
  pub last_cleanup : Option ℕ

module _ (S : Storage) (L : LockBackend) (v : Server) where
  abbrev on_world : {A : Type 0} → Exec (World S.State) A → Exec (Site S.State L.State) A
  on_world m s = let (r, w) = m s.world in (r, record s { world = w })

  abbrev locked :
      String → Exec (World S.State) Response → Option String → Exec (Site S.State L.State) Response
  locked id fn none s = (ok (error_response 423 "Upload locked; retry later"), s)
  locked id fn (some token) s =
      let (r, s') = on_world fn s in (r, record s' { locks = L.release id token s'.locks })

  -- _with_lock with a lock back end: the lock is released however `fn` ends.
  unfoldable pub with_lock :
      String → Exec (World S.State) Response → Exec (Site S.State L.State) Response
  with_lock id fn s =
      let (token, locks) = L.acquire id s.locks in locked id fn token (record s { locks = locks })

  unfoldable pub dispatch :
      Context → Dict String → Bytes → Route → Exec (Site S.State L.State) Response
  unfolding with_lock
  dispatch c headers body options = pure (handle_options v)
  dispatch c headers body creation = on_world (handle_create S v c headers body)
  dispatch c headers body (head id) = on_world (handle_head S v c.now id)
  dispatch c headers body (patch id) = with_lock id (handle_patch S v c.now id headers body)
  dispatch c headers body (download id) = on_world (handle_get_download S v c.now id)
  dispatch c headers body (delete id) = with_lock id (handle_delete S v id)
  dispatch c headers body not_found = pure (error_response 404 "Not Found")
  dispatch c headers body invalid_id = pure (error_response 400 "Invalid upload ID format")

  abbrev is_due : ℕ → Option ℕ → Bool
  is_due now none = true
  is_due now (some last) = leb (last + v.cleanup_interval) now

  -- The periodic cleanup, after the request.
  unfoldable pub clean_up : ℕ → Exec (Site S.State L.State) Unit
  clean_up now s =
      (if is_some v.upload_expiry && is_due now s.last_cleanup
          then on_world (on_store (S.cleanup_expired_uploads now)) >> pure tt
          else pure tt)
        (record s {
          last_cleanup =
              (if is_some v.upload_expiry && is_due now s.last_cleanup
                then some now
                else s.last_cleanup);
        })

  unfoldable pub count_error : ℕ → Exec (Site S.State L.State) Unit
  count_error status =
      if leb 400 status
      then on_world (count "tusd_errors_total" 1 (("status", str status) ∷ []))
      else pure tt

  -- _add_cors_headers on the response.
  unfoldable pub with_cors : Dict String → Bool → Response → Response
  unfolding add_cors_headers
  with_cors headers preflight r = record r {
    headers =
        add_cors_headers r.headers v.cors_allow_origins (Dict.get headers "origin")
          v.cors_allow_credentials v.cors_max_age preflight;
  }

  -- The request once it is admitted.
  unfoldable pub serve :
      Context → String → String → Dict String → Bytes → Exec (Site S.State L.State) Response
  unfolding route dispatch clean_up count_error with_cors
  serve c method path headers body = do
    r ← dispatch c headers body (route v method path)
    clean_up c.now
    count_error r.status
    pure (with_cors headers (method == "OPTIONS") r)

  abbrev admitted :
      Context
      → String
      → String
      → Dict String
      → Bytes
      → Checked Unit
      → Exec (Site S.State L.State) Response
  admitted c method path headers body (refuse r) = pure (with_cors headers (method == "OPTIONS") r)
  admitted c method path headers body (accept _) = serve c method path headers body

  abbrev gated :
      Context → String → Dict String → Bytes → Checked String → Exec (Site S.State L.State) Response
  gated c path headers body (refuse r) = pure (with_cors headers false r)
  gated c path headers body (accept method) =
      admitted c method path headers body (admit v method path headers)

  unfoldable pub handle_request :
      Context → String → String → Dict String → Bytes → Exec (Site S.State L.State) Response
  unfolding normalize_headers gate admit serve
  handle_request c method path raw_headers body = do
    let headers = normalize_headers raw_headers
    on_world (count "tusd_requests_total" 1 (("method", method) ∷ []))
    gated c path headers body (gate v method headers (length body))
