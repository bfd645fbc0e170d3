-- ===== src/Server.antt =====
-- resumable_upload/server/core.py: the server's configuration, its state, and the helpers that the
-- handlers share. Hooks are pure functions here: they do not reach into the storage.
pub mod Checked
pub mod Assembly
pub mod Patch
pub mod Create
pub mod Final
pub mod Head
pub mod Delete
pub mod Download
pub mod Options
pub mod Request
use resumable_upload.Prelude.{
  ℕ, ◌+◌, ◌≡◌, String, ◌<>◌, ◌==◌, starts_with, Bool, true, false, not, ◌&&◌, Option, none, some,
  List, [], ◌∷◌, ◌++◌, if◌then◌else◌, is_some, or_default, eqb, ltb, Bytes, length, is_empty, strip,
  split, str,
}
use resumable_upload.Prelude.Dict
use resumable_upload.Prelude.Dict.{Dict}
use resumable_upload.Exec.{Error, not_implemented, Result, ok, raise, Exec, pure, gets, modify}
use resumable_upload.Metrics.{Registry, Labels, inc}
use resumable_upload.Headers.{Origins, Decoded}
use resumable_upload.Storage.{Upload, Storage}
use Prim.Native.String.{len}

-- What a hook does: it returns, it raises TusHookError(body, status_code), or it raises another
-- exception.
pub data HookResult (A : Type 0) : Type 0 where
  returned : A → HookResult A
  rejected : ℕ → String → HookResult A
  failed : HookResult A

-- The body of a response: `text.encode()`, bytes, or a file that is streamed.
pub data Body : Type 0 where
  text : String → Body
  raw : Bytes → Body
  stream : Bytes → Body

pub record Response : Type 0 where
  pub status : ℕ
  pub headers : Dict String
  pub body : Body

-- The dict that `on_upload_complete` may return.
pub record Completion : Type 0 where
  pub status_code : Option ℕ
  pub headers : Option (Dict String)
  pub body : Option Body

-- Functions of Python's libraries whose results the server passes on: base64 and UTF-8, hashlib,
-- urlparse, and the date of an HTTP header.
pub record Library : Type 0 where
  pub b64decode_text : String → Decoded
  pub b64encode_text : String → String
  pub b64decode_hex : String → Option String
  pub hexdigest : String → Bytes → String
  pub url_path : String → String
  pub quote : String → String
  pub format_expiry : ℕ → String

-- The attributes of `TusServerCore`; sizes of 0 mean no limit. `upload_expiry` and
-- `cleanup_interval` are in microseconds here, as all times.
pub record Server : Type 0 where
  pub library : Library
  pub base_path : String
  pub max_size : ℕ
  pub max_chunk_size : ℕ
  pub upload_expiry : Option ℕ
  pub cors_allow_origins : Origins
  pub cors_allow_credentials : Bool
  pub cors_max_age : Option ℕ
  pub cleanup_interval : ℕ
  pub enable_downloads : Bool
  pub behind_proxy : Bool
  pub location_base_url : Option String
  pub disable_termination : Bool
  pub disable_concatenation : Bool
  pub extensions : List String
  pub checksums : List String
  pub on_incoming_request : Option (String → String → Dict String → HookResult Unit)
  pub on_upload_create :
      Option (String → Dict String → Option ℕ → HookResult (Option (Dict String)))
  pub on_upload_complete :
      Option (String → Dict String → Dict String → HookResult (Option Completion))
  pub on_upload_terminate : Option (String → HookResult Unit)
  pub on_chunk_received : Option (String → ℕ → ℕ → HookResult Unit)
  pub on_before_terminate : Option (String → HookResult Unit)

-- A call of a hook, for the record of what the embedding application is told. The hooks
-- that only accept or refuse a request, on_incoming_request and on_upload_create, are not recorded.
pub data HookCall : Type 0 where
  complete : String → Dict String → HookCall
  terminate : String → HookCall
  chunk_received : String → ℕ → ℕ → HookCall
  before_terminate : String → HookCall

-- What the handlers change: the storage, the metrics if there are any, and the record of calls.
pub record World (State : Type 0) : Type 0 where
  pub store : State
  pub metrics : Option Registry
  pub calls : List HookCall

-- What one request takes from outside: the clock, and the id that uuid4 draws.
pub record Context : Type 0 where
  pub now : ℕ
  pub uuid : String

abbrev pub tus_version : String
tus_version = "1.0.0"

abbrev pub tus_resumable : Dict String
tus_resumable = ("Tus-Resumable", tus_version) ∷ []

-- _error_response
abbrev pub error_response : ℕ → String → Response
error_response status message = record {
  status = status;
  headers = tus_resumable;
  body = text message;
}

-- A truth test on a header: absent and empty values are false.
abbrev pub nonempty : Option String → Option String
nonempty none = none
nonempty (some s) = if s == "" then none else some s

-- `expires_at and expires_at < now`
abbrev pub has_expired : Option ℕ → ℕ → Bool
has_expired none now = false
has_expired (some t) now = ltb t now

-- TusHookError passes through, any other exception becomes a 500.
abbrev pub invoke_pre_hook {ℓ} :
    {A : Type 0} {B : Type ℓ} → HookResult A → (A → B) → (ℕ → String → B) → B
invoke_pre_hook (returned a) done reject = done a
invoke_pre_hook (rejected status body) done reject = reject status body
invoke_pre_hook failed done reject = reject 500 "Internal Server Error"

-- Exceptions of a post-hook are logged, and its result is None.
abbrev pub invoke_post_hook : {A : Type 0} → HookResult (Option A) → Option A
invoke_post_hook (returned r) = r
invoke_post_hook (rejected status body) = none
invoke_post_hook failed = none

abbrev pub hook_error : ℕ → String → Response
hook_error status body = record { status = status; headers = tus_resumable; body = text body }

unfoldable pub body_length : Body → ℕ
body_length (text s) = len s
body_length (raw b) = length b
body_length (stream b) = length b

abbrev merged : Dict String → Option (Dict String) → Dict String
merged headers none = headers
merged headers (some extra) = Dict.merge headers extra

-- A 204 may carry no content.
abbrev with_body : ℕ → Dict String → Body → Response
with_body status headers body =
    if eqb (body_length body) 0
    then record { status = status; headers = headers; body = body }
    else record {
      status = (if eqb status 204 then 200 else status);
      headers = Dict.put headers "Content-Length" (str (body_length body));
      body = body;
    }

-- _apply_completion_response
unfoldable pub apply_completion_response : Option Completion → Response → Response
apply_completion_response none r = r
apply_completion_response (some c) r =
    with_body (or_default c.status_code r.status) (merged r.headers c.headers)
      (or_default c.body r.body)

abbrev first_part : List String → String
first_part [] = ""
first_part (p ∷ _) = p

abbrev or_http : String → String
or_http proto = if proto == "" then "http" else proto

abbrev proxied : Dict String → String → Option String → String
proxied headers path none = path
proxied headers path (some host) =
    let proto = or_default (Dict.get headers "x-forwarded-proto") "http" in
    or_http (strip (first_part (split b',' proto)))
    <> "://"
    <> strip (first_part (split b',' host))
    <> path

abbrev or_else : Option String → Option String → Option String
or_else none b = b
or_else (some a) b = some a

-- _build_location
unfoldable pub build_location : Server → String → Dict String → String
build_location v upload_id headers =
    let path = v.base_path <> "/" <> upload_id in
    elim (nonempty v.location_base_url) [
      | some base ↦ base <> path
      | none ↦
          if v.behind_proxy
          then proxied headers path (
              nonempty (
                or_else (nonempty (Dict.get headers "x-forwarded-host")) (Dict.get headers "host")))
          else path
    ]

abbrev remove_all : (String → Bool) → List String → List String
remove_all test [] = []
remove_all test (e ∷ l) = let rest = remove_all test l in if test e then rest else e ∷ rest

abbrev remove_first : String → List String → List String
remove_first x [] = []
remove_first x (e ∷ l) = if e == x then l else e ∷ remove_first x l

abbrev pub supported_extensions : List String
supported_extensions =
    "creation" ∷ "creation-with-upload" ∷ "creation-defer-length" ∷ "termination" ∷ "checksum"
    ∷ "expiration" ∷ "concatenation" ∷ []

-- The list that `__init__` computes, from the storage's flag and three options.
unfoldable pub advertised_extensions : Bool → Bool → Bool → Bool → List String
advertised_extensions unfinished trailer no_termination no_concatenation =
    let base : List String =
      supported_extensions
      ++ (if unfinished then "concatenation-unfinished" ∷ [] else [])
      ++ (if trailer then "checksum-trailer" ∷ [] else []) in
    let kept : List String = if no_termination then remove_first "termination" base else base in
    if no_concatenation then remove_all (λ e. starts_with e "concatenation") kept else kept

abbrev pub count_in : Option Registry → String → ℕ → Labels → Option Registry
count_in none name value labels = none
count_in (some m) name value labels = some (inc name value labels m)

module _ {State : Type 0} where
  -- A call of the storage.
  abbrev pub on_store : {A : Type 0} → Exec State A → Exec (World State) A
  on_store m w = let (r, s) = m w.store in (r, record w { store = s })

  -- self._metrics.inc(name, value, labels), where there are metrics
  abbrev pub count : String → ℕ → Labels → Exec (World State) Unit
  count name value labels =
      modify (λ w. record w { metrics = count_in w.metrics name value labels })

  abbrev pub called : HookCall → Exec (World State) Unit
  called c = modify (λ w. record w { calls = w.calls ++ c ∷ [] })
