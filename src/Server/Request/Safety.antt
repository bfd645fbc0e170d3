-- ===== src/Server/Request/Safety.antt =====
-- What `handle_request` lets through: the version, and the ids in the path.
use resumable_upload.Prelude.{
  ℕ, ◌≡◌, refl, String, ◌==◌, eq_iff, Bool, true, false, not, ◌&&◌, ◌||◌, if◌then◌else◌, text_drop,
  text_length, starts_with, upper, strip, or_default, ◌<>◌, Bytes, length, Bool-cases, inl, inr,
}
use resumable_upload.Prelude.Dict
use resumable_upload.Prelude.Dict.{Dict}
use resumable_upload.Headers.{validate_upload_id}
use resumable_upload.Headers.Ids.{is_id_text, validate_upload_id-is_id_text}
use resumable_upload.Locks.{LockBackend}
use resumable_upload.Storage.{Storage}
use resumable_upload.Server.{Server, Context, Response, error_response}
use resumable_upload.Server.Checked.{accept, refuse, Checked-cases}
use resumable_upload.Server.Request.{
  normalize_headers, is_version, override_method, check_sizes, check_version, gate, admit, Route,
  route, Site, handle_request, with_id, is_tunnelled, overridden, run_incoming_hook,
}

-- An id that a route carries is one that is safe as a file name.
abbrev pub IsSafe : Route → Type 0
IsSafe Route.options = Unit
IsSafe Route.creation = Unit
IsSafe Route.not_found = Unit
IsSafe Route.invalid_id = Unit
IsSafe (Route.head id) = is_id_text id ≡ true
IsSafe (Route.patch id) = is_id_text id ≡ true
IsSafe (Route.download id) = is_id_text id ≡ true
IsSafe (Route.delete id) = is_id_text id ≡ true

with_id-IsSafe :
    (r : String → Route) (id : String)
    → (is_id_text id ≡ true → IsSafe (r id))
    → IsSafe (with_id r id)
with_id-IsSafe r id safe = elim (Bool-cases (validate_upload_id id)) [
  | inl valid ↦ rw valid (safe (validate_upload_id-is_id_text id valid))
  | inr invalid ↦ rw invalid tt
]

if-IsSafe : (b : Bool) (r r' : Route) → IsSafe r → IsSafe r' → IsSafe (if b then r else r')
if-IsSafe true r r' safe safe' = safe
if-IsSafe false r r' safe safe' = safe'

-- Whatever the method and the path of a request are, the route that they pick has no id with a
-- separator of a path or a dot in it.
pub route-IsSafe : (v : Server) (method path : String) → IsSafe (route v method path)
unfolding route
route-IsSafe v method path =
    let prefix = v.base_path <> "/" in
    let below = starts_with path prefix in
    let id = text_drop (text_length prefix) path in
    let after_get =
      if method == "DELETE" && below then with_id Route.delete id else Route.not_found in
    let after_patch =
      if method == "GET" && v.enable_downloads && below
      then with_id Route.download id
      else after_get in
    let after_head = if method == "PATCH" && below then with_id Route.patch id else after_patch in
    let after_post = if method == "HEAD" && below then with_id Route.head id else after_head in
    let is_post = method == "POST" && (path == v.base_path || path == prefix) in
    if-IsSafe (method == "OPTIONS") Route.options (if is_post then Route.creation else after_post)
      tt
      (if-IsSafe is_post Route.creation after_post tt (
        if-IsSafe (method == "HEAD" && below) (with_id Route.head id) after_head
          (with_id-IsSafe Route.head id (λ h. h))
          (if-IsSafe (method == "PATCH" && below) (with_id Route.patch id) after_patch
            (with_id-IsSafe Route.patch id (λ h. h))
            (if-IsSafe (method == "GET" && v.enable_downloads && below) (with_id Route.download id)
              after_get (with_id-IsSafe Route.download id (λ h. h))
              (if-IsSafe (method == "DELETE" && below) (with_id Route.delete id) Route.not_found
                (with_id-IsSafe Route.delete id (λ h. h)) tt)))))

-- Neither OPTIONS nor GET.
abbrev pub is_plain : String → Bool
is_plain m = not (m == "OPTIONS" || m == "GET")

tunnelled-is_plain : (m : String) → is_tunnelled m ≡ true → is_plain m ≡ true
tunnelled-is_plain m e = elim (Bool-cases (m == "PATCH")) [
  | inl h ↦ rw ((eq_iff m "PATCH").0 h) refl
  | inr h ↦ elim (Bool-cases (m == "DELETE")) [
    | inl k ↦ rw ((eq_iff m "DELETE").0 k) refl
    | inr k ↦ rw ((eq_iff m "HEAD").0 (rw (h, k) at e)) refl
  ]
]

overridden-is_plain : (value m : String) → overridden value ≡ accept m → is_plain m ≡ true
overridden-is_plain value m e = elim (Bool-cases (value == "")) [
  | inl h ↦ let same : "POST" ≡ m = cc (rw h at e) in rw (← same) refl
  | inr h ↦ elim (Bool-cases (is_tunnelled value)) [
    | inl k ↦ let same : value ≡ m = cc (rw (h, k) at e) in rw (← same) (tunnelled-is_plain value k)
    | inr k ↦ cc (rw (h, k) at e)
  ]
]

override_method-is_plain :
    (method : String) (headers : Dict String) (m : String)
    → is_plain method ≡ true
    → override_method method headers ≡ accept m
    → is_plain m ≡ true
unfolding override_method
override_method-is_plain method headers m plain e = elim (Bool-cases (method == "POST")) [
  | inl h ↦
      overridden-is_plain
        (upper (strip (or_default (Dict.get headers "x-http-method-override") ""))) m (rw h at e)
  | inr h ↦ let same : method ≡ m = cc (rw h at e) in rw (← same) plain
]

gate-is_plain :
    (v : Server) (method : String) (headers : Dict String) (n : ℕ) (m : String)
    → is_plain method ≡ true
    → gate v method headers n ≡ accept m
    → is_plain m ≡ true
unfolding gate
gate-is_plain v method headers n m plain e = elim (Checked-cases (override_method method headers)) [
  | inr (r, h) ↦ cc (rw h at e)
  | inl (m', h) ↦ elim (Checked-cases (check_sizes v m' n)) [
    | inr (r, k) ↦ cc (rw (h, k) at e)
    | inl (_, k) ↦
        let same : m' ≡ m = cc (rw (h, k) at e) in
        rw (← same) (override_method-is_plain method headers m' plain h)
  ]
]

admit_refuses :
    (v : Server) (m path : String) (headers : Dict String)
    → is_plain m ≡ true
    → is_version (Dict.get headers "tus-resumable") ≡ false
    → (r : Response) × (admit v m path headers ≡ refuse r)
unfolding admit check_version
admit_refuses v m path headers plain other =
    elim (Checked-cases (run_incoming_hook v m path headers)) [
      | inr (r, h) ↦ (r, rw h refl)
      | inl (_, h) ↦
          (error_response 412 "Precondition Failed: Invalid TUS version", rw (h, other, plain) refl)
    ]

module _ (S : Storage) (L : LockBackend) (v : Server) where
  -- A request other than OPTIONS and GET that does not carry the version 1.0.0 leaves the storage,
  -- the record of hook calls and the locks as they are, whatever the method override, the gates and
  -- the hook on_incoming_request make of it.
  pub handle_request-needs_version :
      (c : Context) (method path : String) (raw_headers : Dict String) (body : Bytes)
      (s : Site S.State L.State)
      → is_plain method ≡ true
      → is_version (Dict.get (normalize_headers raw_headers) "tus-resumable") ≡ false
      → let s' = (handle_request S L v c method path raw_headers body s).1 in
        (s'.world.store ≡ s.world.store) × (s'.world.calls ≡ s.world.calls) × (s'.locks ≡ s.locks)
  unfolding handle_request
  handle_request-needs_version c method path raw_headers body s plain other =
      let headers = normalize_headers raw_headers in
      elim (Checked-cases (gate v method headers (length body))) [
        | inr (r, e) ↦ rw e (refl, refl, refl)
        | inl (m, e) ↦
            let (r, e') =
              admit_refuses v m path headers
                (gate-is_plain v method headers (length body) m plain e) other in
            rw (e, e') (refl, refl, refl)
      ]
