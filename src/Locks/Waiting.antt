-- ===== src/Locks/Waiting.antt =====
-- The loop of `acquire`: it ends at the deadline, and a token that it returns is the holder's.
use resumable_upload.Prelude.{
  ℕ, ◌+◌, String, eq_refl, ◌≡◌, refl, Bool, true, false, ◌||◌, Option, none, some, List, [], ◌∷◌,
  arith, if◌then◌else◌, leb, Bool-cases, inl, inr,
}
use resumable_upload.Prelude.Dict
use resumable_upload.Prelude.Dict.{get-put}
use resumable_upload.Locks.{Entry, Holders, Round, is_free, attempt, acquire}

-- Some round ends at the deadline or after it.
abbrev pub reaches : ℕ → List Round → Bool
reaches deadline [] = false
reaches deadline (r ∷ rounds) = leb deadline r.after || reaches deadline rounds

module _ (key : String) (ttl deadline : ℕ) where
  attempt_free :
      (now : ℕ) (token : String) (h : Holders)
      → is_free (Dict.get h key) now ≡ true
      → attempt key ttl now token h
        ≡ (some token, Dict.put h key (record { token = token; expires = now + ttl }))
  unfolding attempt
  attempt_free now token h free = rw free refl

  attempt_taken :
      (now : ℕ) (token : String) (h : Holders)
      → is_free (Dict.get h key) now ≡ false
      → attempt key ttl now token h ≡ (none, h)
  unfolding attempt
  attempt_taken now token h taken = rw taken refl

  -- One round: the token that is taken, or another round, or the end of the wait.
  pub acquire_step :
      (r : Round) (rounds : List Round) (h : Holders)
      → acquire key ttl deadline (r ∷ rounds) h ≡ (
          if is_free (Dict.get h key) r.now
          then some
              (some r.token, Dict.put h key (record { token = r.token; expires = r.now + ttl }))
          else if leb deadline r.after
          then some (none, h)
          else acquire key ttl deadline rounds (r.others h))
  unfolding acquire
  acquire_step r rounds h = elim (Bool-cases (is_free (Dict.get h key) r.now)) [
    | inl free ↦ rw (free, acquire, attempt_free r.now r.token h free) refl
    | inr taken ↦ rw (taken, acquire, attempt_taken r.now r.token h taken) refl
  ]

  -- The wait for a lock ends, with a token or without, as soon as the clock reaches the deadline,
  -- whatever the other threads do in between.
  pub acquire_ends :
      (rounds : List Round) (h : Holders)
      → reaches deadline rounds ≡ true
      → (r : Option String × Holders) × (acquire key ttl deadline rounds h ≡ some r)
  acquire_ends [] h late = absurd (ground arith)
  acquire_ends (r ∷ rounds) h late = elim (Bool-cases (is_free (Dict.get h key) r.now)) [
    | inl free ↦ (
      (some r.token, Dict.put h key (record { token = r.token; expires = r.now + ttl })),
      rw (acquire_step r rounds h, free) refl,
    )
    | inr taken ↦ elim (Bool-cases (leb deadline r.after)) [
      | inl reached ↦ ((none, h), rw (acquire_step r rounds h, taken, reached) refl)
      | inr early ↦
          let (result, ends) = acquire_ends rounds (r.others h) (rw early at late) in
          (result, rw (acquire_step r rounds h, taken, early) ends)
    ]
  ]

  -- A wait that ends with a token leaves that token as the holder of the lock; one that ends
  -- without has reached the deadline.
  pub acquire_result :
      (rounds : List Round) (h h' : Holders) (token : Option String)
      → acquire key ttl deadline rounds h ≡ some (token, h')
      → ((t : String) → token ≡ some t → (e : Entry) × (Dict.get h' key ≡ some e) × (e.token ≡ t))
        × (token ≡ none → reaches deadline rounds ≡ true)
  unfolding acquire
  acquire_result [] h h' token ended = absurd (ground arith)
  acquire_result (r ∷ rounds) h h' token ended =
      elim (Bool-cases (is_free (Dict.get h key) r.now)) [
        | inl free ↦
            let h1 = Dict.put h key (record { token = r.token; expires = r.now + ttl }) in
            let here = rw (acquire_step r rounds h, free) at ended in
            let same_token : some r.token ≡ token = cc here in
            let same_holders : h1 ≡ h' = cc here in
            (
              λ t e. (
                record { token = r.token; expires = r.now + ttl },
                rw (← same_holders, get-put, eq_refl key) refl,
                cc (same_token, e),
              ),
              λ refused. cc (same_token, refused),
            )
        | inr taken ↦ elim (Bool-cases (leb deadline r.after)) [
          | inl reached ↦
              let same_token : ◌≡◌ {A = Option String} none token =
                cc (rw (acquire_step r rounds h, taken, reached) at ended) in
              (λ t e. absurd (ground (arith, same_token, e)), λ refused. rw reached refl)
          | inr early ↦
              let (holds, late) =
                acquire_result rounds (r.others h) h' token
                  (rw (acquire_step r rounds h, taken, early) at ended) in
              (holds, λ refused. rw early (late refused))
        ]
      ]
