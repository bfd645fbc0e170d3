-- ===== src/EndToEnd/Free.antt =====
-- The in-memory locks, where the uploader is the only one to ask for the lock of its upload.
use resumable_upload.Prelude.{ℕ, ◌+◌, ◌≡◌, refl, String, eq_refl, none, List, ◌∷◌}
use resumable_upload.Prelude.Dict
use resumable_upload.Locks.{Holders, Round, release, memory_backend}
use resumable_upload.Locks.Waiting.{acquire_step}
use resumable_upload.EndToEnd.Open.{IsNeverBusy}

module _ (id : String) where
  abbrev pub IsUnlocked : Holders → Type 0
  IsUnlocked holders = Dict.get holders id ≡ none

  pub memory_backend-IsNeverBusy :
      (ttl deadline : ℕ) (r : Round) (rounds : List Round)
      → IsNeverBusy (memory_backend ttl deadline (r ∷ rounds)) id IsUnlocked
  unfolding release
  memory_backend-IsNeverBusy ttl deadline r rounds = record {
    acquires = λ holders free. (
      r.token,
      Dict.put holders id (record { token = r.token; expires = r.now + ttl }),
      (rw (acquire_step id ttl deadline r rounds holders, free) refl),
      simp (Dict.dict_laws, eq_refl) refl,
    );
  }
