-- ===== src/Locks/Exclusion.antt =====
-- While a lock is held and has not expired, nobody else takes it; it comes free by its holder's
-- release or at its expiry.
use resumable_upload.Prelude.{
  ℕ, ◌+◌, ◌≤◌, ◌<◌, String, eq_iff, eq_refl, ◌≡◌, ◌≢◌, none, some, List, [], ◌∷◌, arith, Bool-cases,
  inl, inr,
}
use resumable_upload.Prelude.Dict
use resumable_upload.Prelude.Dict.{get-put, get-remove}
use resumable_upload.Locks.{Entry, Holders, is_free, is_held_by, attempt, release}

-- A step that some thread makes under the mutex.
pub data Event : Type 0 where
  attempted : String → ℕ → ℕ → String → Event
  released : String → String → Event

abbrev pub run_event : Event → Holders → Holders
run_event (attempted key ttl now token) h = (attempt key ttl now token h).1
run_event (released key token) h = release key token h

unfoldable pub run_events : List Event → Holders → Holders
run_events [] h = h
run_events (e ∷ es) h = run_events es (run_event e h)

-- The steps that leave the holder of `key` alone: attempts before the expiry, releases of other
-- keys or with other tokens.
abbrev pub Spares : String → String → ℕ → Event → Type 0
Spares key token expires (attempted k ttl now t) = now < expires
Spares key token expires (released k t) = t ≢ token

abbrev pub AllSpare : String → String → ℕ → List Event → Type 0
AllSpare key token expires [] = Unit
AllSpare key token expires (e ∷ es) = Spares key token expires e × AllSpare key token expires es

module _ (key : String) (e : Entry) where
  attempt-keeps_holder :
      (k : String) (ttl now : ℕ) (t : String) (h : Holders)
      → Dict.get h key ≡ some e
      → now < e.expires
      → Dict.get (attempt k ttl now t h).1 key ≡ some e
  unfolding attempt
  attempt-keeps_holder k ttl now t h held before = elim (Bool-cases (is_free (Dict.get h k) now)) [
    | inl free ↦ rw (free, get-put) (ground (arith, eq_iff k key))
    | inr taken ↦ rw taken held
  ]

  release-keeps_holder :
      (k t : String) (h : Holders)
      → Dict.get h key ≡ some e
      → t ≢ e.token
      → Dict.get (release k t h) key ≡ some e
  unfolding release
  release-keeps_holder k t h held other = elim (Bool-cases (is_held_by (Dict.get h k) t)) [
    | inl own ↦ rw (own, get-remove) (ground (arith, eq_iff k key, eq_iff e.token t))
    | inr foreign ↦ rw foreign held
  ]

  run_event-keeps_holder :
      (ev : Event) (h : Holders)
      → Dict.get h key ≡ some e
      → Spares key e.token e.expires ev
      → Dict.get (run_event ev h) key ≡ some e
  run_event-keeps_holder (attempted k ttl now t) h held spare =
      attempt-keeps_holder k ttl now t h held spare
  run_event-keeps_holder (released k t) h held spare = release-keeps_holder k t h held spare

  run_events-keeps_holder :
      (es : List Event) (h : Holders)
      → Dict.get h key ≡ some e
      → AllSpare key e.token e.expires es
      → Dict.get (run_events es h) key ≡ some e
  unfolding run_events
  run_events-keeps_holder [] h held spare = held
  run_events-keeps_holder (ev ∷ es) h held spare =
      run_events-keeps_holder es (run_event ev h) (run_event-keeps_holder ev h held spare.0) spare.1

attempt_refused :
    (key : String) (h : Holders) (e : Entry) (ttl now : ℕ) (token : String)
    → Dict.get h key ≡ some e
    → now < e.expires
    → attempt key ttl now token h ≡ (none, h)
unfolding attempt
attempt_refused key h e ttl now token held early = rw held (ground arith)

module _ (key : String) (h : Holders) where
  attempt-holds :
      (ttl now : ℕ) (token : String)
      → (attempt key ttl now token h).0 ≡ some token
      → Dict.get (attempt key ttl now token h).1 key
        ≡ some (record { token = token; expires = now + ttl })
  unfolding attempt
  attempt-holds ttl now token taken = elim (Bool-cases (is_free (Dict.get h key) now)) [
    | inl free ↦ rw (free, get-put, eq_refl key)
    | inr held ↦ cc (rw held at taken)
  ]

  -- A thread takes the lock at `now`. Whatever steps the others make, none of them releasing with
  -- its token and every attempt coming before `now + ttl`, a further attempt before `now + ttl`
  -- is refused and changes nothing.
  pub attempt-exclusive :
      (ttl now ttl' later : ℕ) (token token' : String) (es : List Event)
      → (attempt key ttl now token h).0 ≡ some token
      → AllSpare key token (now + ttl) es
      → later < now + ttl
      → let h' = run_events es (attempt key ttl now token h).1 in
        attempt key ttl' later token' h' ≡ (none, h')
  attempt-exclusive ttl now ttl' later token token' es taken spare early =
      let e : Entry = record { token = token; expires = now + ttl } in
      attempt_refused key (run_events es (attempt key ttl now token h).1) e ttl' later token'
        (run_events-keeps_holder key e es (attempt key ttl now token h).1
          (attempt-holds ttl now token taken) spare)
        early

  -- Once the holder has released it, or once it has expired, the lock is free for the next attempt;
  -- a release with another token leaves the holders as they are.
  pub release_frees :
      (e : Entry) (ttl now : ℕ) (token other : String)
      → Dict.get h key ≡ some e
      → other ≢ e.token
      → ((attempt key ttl now token (release key e.token h)).0 ≡ some token)
        × (e.expires ≤ now → (attempt key ttl now token h).0 ≡ some token)
        × (release key other h ≡ h)
  unfolding attempt release
  release_frees e ttl now token other held foreign = (
    rw (held, eq_refl e.token, get-remove, eq_refl key),
    λ late. rw held (ground arith),
    rw held (ground (arith, eq_iff e.token other)),
  )
