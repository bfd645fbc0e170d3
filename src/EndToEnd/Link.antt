-- ===== src/EndToEnd/Link.antt =====
-- A link between the uploader and one upload of the server that may lose requests and answers.
use resumable_upload.Prelude.{
  ℕ, ◌≡◌, inl, inr, String, ◌==◌, eq_iff, ◌||◌, Bool, false, Option, none, List, [], ◌∷◌,
  if◌then◌else◌, or_default, Bytes, length, Bool-cases,
}
use resumable_upload.Exec.{Result}
use resumable_upload.Locks.{LockBackend}
use resumable_upload.Storage.{Storage}
use resumable_upload.Storage.Contract.{IsLawful}
use resumable_upload.Server.{Server, Context, Response}
use resumable_upload.Server.Request.{Site, patch, head, route, handle_request}
use resumable_upload.Client.Network.{Request, Wire, stale, broken, url_error, Network}
use resumable_upload.Client.Outcome.{Failure}
use resumable_upload.Client.Protocol.{flag}
use resumable_upload.Client.Uploader.{Config}
use resumable_upload.EndToEnd.{IsPlainServer, to_wire, IsReady, acknowledged}
use resumable_upload.EndToEnd.Served.{handle_request-Patched, handle_request-Asked}

-- What the link does with a request: it may lose the request, or the answer, and the client sees a
-- stale socket (true) or another failure.
pub data Fate : Type 0 where
  delivered : Fate
  request_lost answer_lost : Bool → Fate

-- What a user chooses of an uploader without custom headers, checksum and hooks.
pub record Options : Type 0 where
  pub url : String
  pub file : Bytes
  pub chunk_size : ℕ
  pub max_retries : ℕ
  pub retry_delay : ℕ
  pub add_request_id : Bool
  pub on_should_retry : Option (Failure → ℕ → Bool)

abbrev pub plain_uploader : Options → Config
plain_uploader o = record {
  url = o.url;
  file = o.file;
  file_size = length o.file;
  chunk_size = o.chunk_size;
  checksum = flag false;
  digest = λ _ _. none;
  headers = [];
  max_retries = o.max_retries;
  retry_delay = o.retry_delay;
  via_proxy = false;
  override_patch_method = false;
  add_request_id = o.add_request_id;
  before_request = none;
  on_should_retry = o.on_should_retry;
}

-- A server over a lawful storage, and the upload whose URL has the path `path`. The clock stands,
-- all requests get the same id, and the stop event is as `stopped` says.
pub record Setup : Type 1 where
  pub storage : Storage
  pub can_store : ℕ → Bool
  pub lawful : IsLawful storage can_store
  pub locks : LockBackend
  pub server : Server
  pub plain : IsPlainServer server
  pub context : Context
  pub id : String
  pub path : String
  pub to_patch : route server "PATCH" path ≡ patch id
  pub to_head : route server "HEAD" path ≡ head id
  pub request_id : String
  pub stopped : Bool

-- The two methods of the uploader.
abbrev pub carries : String → Bool
carries method = method == "PATCH" || method == "HEAD"

abbrev pub lost_as : Bool → Wire
lost_as looks_stale = if looks_stale then stale else broken

module _ (x : Setup) where
  open x use {
    storage, can_store, lawful, locks, server, plain, context, id, path, to_patch, to_head,
  }

  abbrev pub handled :
      Request → Site storage.State locks.State → Result Response × Site storage.State locks.State
  handled req s =
      handle_request storage locks server context req.method path req.headers
        (or_default req.body []) s

  -- The two ends: the server, and what the link will do with the next requests.
  pub record Ends : Type 0 where
    pub site : Site storage.State locks.State
    pub fates : List Fate
    pub ready : IsReady storage id site.world.store

  abbrev pub held : Ends → Bytes
  held e = acknowledged storage id e.site.world.store

  abbrev pub site_after : Request → Ends → Site storage.State locks.State
  site_after req e = if carries req.method then (handled req e.site).1 else e.site

  abbrev pub reply_to : Request → Ends → Wire
  reply_to req e = if carries req.method then to_wire (handled req e.site).0 else broken

  pub site_after-IsReady :
      (req : Request) (e : Ends) → IsReady storage id (site_after req e).world.store
  site_after-IsReady req e = elim (Bool-cases (req.method == "PATCH")) [
    | inl is_patch ↦
        rw ((eq_iff req.method "PATCH").0 is_patch)
          (handle_request-Patched storage lawful locks server plain context id path req.headers
            (or_default req.body []) e.site to_patch e.ready).0
    | inr other ↦ elim (Bool-cases (req.method == "HEAD")) [
      | inl is_head ↦
          rw ((eq_iff req.method "HEAD").0 is_head)
            (handle_request-Asked storage lawful locks server plain context id path req.headers
              (or_default req.body []) e.site to_head e.ready).0
      | inr neither ↦ rw (other, neither) e.ready
    ]
  ]

  -- The request is handled.
  abbrev pub reached : List Fate → Request → Ends → Ends
  reached fates req e = record {
    site = site_after req e;
    fates = fates;
    ready = site_after-IsReady req e;
  }

  -- Once no fates are left, every request and every answer is delivered.
  abbrev pub carry : List Fate → Request → Ends → Wire × Ends
  carry [] req e = (reply_to req e, reached [] req e)
  carry (delivered ∷ fates) req e = (reply_to req e, reached fates req e)
  carry (request_lost looks ∷ fates) req e = (lost_as looks, record e { fates = fates })
  carry (answer_lost looks ∷ fates) req e = (lost_as looks, reached fates req e)

  abbrev pub link : Network
  link = record {
    State = Ends;
    exchange = λ kept req e. carry e.fates req e;
    urlopen = λ req e. (url_error, e);
    uuid4 = λ e. (x.request_id, e);
    wait = λ time e. (x.stopped, e);
  }
