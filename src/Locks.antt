-- ===== src/Locks.antt =====
-- resumable_upload/locks: the lock interface of base.py and the in-memory back end of
-- memory_lock.py. Clock readings are microseconds. A critical section under the global mutex is
-- one step, so threads interleave between the steps.
pub mod Exclusion
pub mod Waiting
use resumable_upload.Prelude.{
  ℕ, ◌+◌, String, ◌==◌, Bool, true, false, Option, none, some, List, [], ◌∷◌, if◌then◌else◌, leb,
}
use resumable_upload.Prelude.Dict
use resumable_upload.Prelude.Dict.{Dict}

-- What the server calls. `acquire` is given as it ends: with a token, or with `none` after the
-- wait.
pub record LockBackend : Type 1 where
  pub State : Type 0
  pub acquire : String → State → Option String × State
  pub release : String → String → State → State

-- A token, and the time at which the lock may be taken over.
pub record Entry : Type 0 where
  pub token : String
  pub expires : ℕ

abbrev pub Holders : Type 0
Holders = Dict Entry

-- entry is None or entry[1] <= now
abbrev pub is_free : Option Entry → ℕ → Bool
is_free none now = true
is_free (some e) now = leb e.expires now

-- The section under the mutex in `acquire`, with the token that it would draw.
unfoldable pub attempt : String → ℕ → ℕ → String → Holders → Option String × Holders
attempt key ttl now token holders =
    if is_free (Dict.get holders key) now
    then (some token, Dict.put holders key (record { token = token; expires = now + ttl }))
    else (none, holders)

abbrev pub is_held_by : Option Entry → String → Bool
is_held_by none token = false
is_held_by (some e) token = e.token == token

unfoldable pub release : String → String → Holders → Holders
release key token holders =
    if is_held_by (Dict.get holders key) token then Dict.remove holders key else holders

-- One round of the loop in `acquire`: the clock under the mutex, the token drawn, the clock after
-- it, and what other threads do while this one sleeps.
pub record Round : Type 0 where
  pub now : ℕ
  pub token : String
  pub after : ℕ
  pub others : Holders → Holders

-- `none` means that the rounds given ran out before the deadline.
unfoldable pub acquire : String → ℕ → ℕ → List Round → Holders → Option (Option String × Holders)
unfolding attempt
acquire key ttl deadline [] holders = none
acquire key ttl deadline (r ∷ rounds) holders =
    let (taken, holders') = attempt key ttl r.now r.token holders in
    let rest = acquire key ttl deadline rounds (r.others holders') in
    elim taken [
      | some token ↦ some (some token, holders')
      | none ↦ if leb deadline r.after then some (none, holders') else rest
    ]

abbrev or_timed_out : Holders → Option (Option String × Holders) → Option String × Holders
or_timed_out holders none = (none, holders)
or_timed_out holders (some r) = r

-- `InMemoryLockBackend` for one request, whose waiting is described by the rounds.
abbrev pub memory_backend : ℕ → ℕ → List Round → LockBackend
memory_backend ttl deadline rounds = record {
  State = Holders;
  acquire = λ key holders. or_timed_out holders (acquire key ttl deadline rounds holders);
  release = release;
}

-- `lock_backend=None`: nothing is locked.
abbrev pub no_locks : LockBackend
no_locks = record { State = Unit; acquire = λ key s. (some "", s); release = λ key token s. s }
