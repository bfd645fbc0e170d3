-- ===== src/Client/Network.antt =====
-- What the client's requests meet: sockets, urlopen, uuid4 and the wait on an event, which are not
-- code of the repository. The headers of a response are looked up by the names that the client
-- writes.
use resumable_upload.Prelude.{ℕ, String, Bool, Option, Bytes}
use resumable_upload.Prelude.Dict.{Dict}

-- urllib.request.Request
pub record Request : Type 0 where
  pub method : String
  pub url : String
  pub headers : Dict String
  pub body : Option Bytes

-- One exchange on a connection: a response, read to its end, and whether the peer closes; one of
-- _STALE_SOCKET_ERRORS; or another OSError or HTTPException.
pub data Wire : Type 0 where
  answered : ℕ → Dict String → Bool → Wire
  stale broken : Wire

-- What urlopen and `_send` come to: a response, an HTTPError, or a URLError.
pub data Reply : Type 0 where
  response : ℕ → Dict String → Reply
  http_error : ℕ → Reply
  url_error : Reply

-- `exchange` is told whether the connection was kept from an earlier request. `wait` takes a time
-- in microseconds, and tells whether the event was set meanwhile.
pub record Network : Type 1 where
  pub State : Type 0
  pub exchange : Bool → Request → State → Wire × State
  pub urlopen : Request → State → Reply × State
  pub uuid4 : State → String × State
  pub wait : ℕ → State → Bool × State
