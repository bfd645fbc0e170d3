-- ===== src/Client/Outcome.antt =====
-- Methods of the client that change an object's state and may raise. The exceptions are those of
-- resumable_upload/exceptions.py and of Python that leave the client, without their messages.
use resumable_upload.Prelude.{ℕ, Option, none}

-- `communication` is TusCommunicationError and `upload_failed` TusUploadFailed, with the status
-- code; `offset_mismatch` is _OffsetMismatch.
pub data Failure : Type 0 where
  communication upload_failed : Option ℕ → Failure
  offset_mismatch os_error value_error : Failure

pub data Outcome (A : Type 0) : Type 0 where
  done : A → Outcome A
  raised : Failure → Outcome A

abbrev pub Exec : Type 0 → Type 0 → Type 0
Exec S A = S → Outcome A × S

module _ {S A : Type 0} where
  abbrev pub pure : A → Exec S A
  pure a s = (done a, s)

  abbrev pub throw : Failure → Exec S A
  throw e s = (raised e, s)

module _ {S A B : Type 0} where
  abbrev pub continue : (A → Exec S B) → Outcome A × S → Outcome B × S
  continue f (done a, s) = f a s
  continue f (raised e, s) = (raised e, s)

  infixl 5 ◌>>=◌ ◌>>◌
  abbrev pub ◌>>=◌ : Exec S A → (A → Exec S B) → Exec S B
  ◌>>=◌ m f s = continue f (m s)

  abbrev pub ◌>>◌ : Exec S A → Exec S B → Exec S B
  m >> k = m >>= λ _. k

-- The `status_code` of an exception, where it has one.
abbrev pub status_code : Failure → Option ℕ
status_code (communication code) = code
status_code (upload_failed code) = code
status_code offset_mismatch = none
status_code os_error = none
status_code value_error = none
