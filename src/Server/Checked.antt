-- ===== src/Server/Checked.antt =====
-- The outcome of the planners: a value, or the error response that ends the request.
use resumable_upload.Prelude.{ℕ, ◌≡◌, refl, ◌⊎◌, inl, inr, String, Bool, true, false}
use resumable_upload.Server.{Response, error_response}

pub data Checked (A : Type 0) : Type 0 where
  accept : A → Checked A
  refuse : Response → Checked A

infixl 5 ◌>>=◌ ◌>>◌
abbrev pub ◌>>=◌ : {A B : Type 0} → Checked A → (A → Checked B) → Checked B
accept a >>= f = f a
refuse r >>= f = refuse r

abbrev pub ◌>>◌ : {A B : Type 0} → Checked A → Checked B → Checked B
m >> k = m >>= λ _. k

-- `if test: return server._error_response(status, message)`
abbrev pub refuse_if : Bool → ℕ → String → Checked Unit
refuse_if true status message = refuse (error_response status message)
refuse_if false status message = accept tt

pub Checked-cases :
    {A : Type 0} (m : Checked A) → ((a : A) × (m ≡ accept a)) ⊎ ((r : Response) × (m ≡ refuse r))
Checked-cases (accept a) = inl (a, refl)
Checked-cases (refuse r) = inr (r, refl)
