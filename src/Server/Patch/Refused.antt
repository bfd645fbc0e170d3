-- ===== src/Server/Patch/Refused.antt =====
-- What a refusal of `_plan_patch` tells the client: no success, and 409 for a wrong offset only.
use resumable_upload.Prelude.{
  ℕ, ◌+◌, ◌≡◌, ◌≢◌, refl, String, ◌<>◌, ◌==◌, ◌&&◌, Bool, true, false, not, Option, none, some,
  Bytes, length, is_empty, or_default, ltb, leb, eqb, arith, ℤ, pos, negsuc, int, split_once,
  Bool-cases, inl, inr,
}
use resumable_upload.Prelude.Dict
use resumable_upload.Prelude.Dict.{Dict}
use resumable_upload.Checksum.{compute, is_supported}
use resumable_upload.Storage.{Upload}
use resumable_upload.Server.{Server, has_expired, nonempty}
use resumable_upload.Server.Checked.{Checked, accept, refuse, refuse_if, ◌>>=◌}
use resumable_upload.Server.Patch.{
  PatchPlan, plan_length, plan_offset, check_checksum, plan_patch, committed_length,
  deferred_length, unchanged_length, resent_length, matching_offset, compare_digest, checksum_parts,
  given_checksum,
}

abbrev pub is_success : ℕ → Bool
is_success status = leb 200 status && ltb status 300

-- A refusal is no success, and a conflict only where `Bad` holds.
abbrev pub Refuses : {A : Type 0} → Type 0 → Checked A → Type 0
Refuses Bad (accept _) = Unit
Refuses Bad (refuse r) = (is_success r.status ≡ false) × (r.status ≡ 409 → Bad)

module _ (Bad : Type 0) where
  bind-Refuses :
      {A B : Type 0} (m : Checked A) (f : A → Checked B)
      → Refuses Bad m
      → ((a : A) → Refuses Bad (f a))
      → Refuses Bad (m >>= f)
  bind-Refuses (accept a) f h k = k a
  bind-Refuses (refuse r) f h k = h

  -- A test of the plan, with any status but 409.
  test-Refuses :
      {B : Type 0} (test : Bool) (status : ℕ) (message : String) (m : Checked B)
      → is_success status ≡ false
      → status ≢ 409
      → Refuses Bad m
      → Refuses Bad (refuse_if test status message >>= λ _. m)
  test-Refuses true status message m h k more = (h, λ e. absurd (k e))
  test-Refuses false status message m h k more = more

  bad_request : (status : ℕ) → status ≡ 400 → status ≢ 409
  bad_request status e f = omega (arith, e, f)

  committed_length-Refuses : (v : Server) (n : Option ℤ) → Refuses Bad (committed_length v n)
  committed_length-Refuses v none = (refl, λ e. absurd (bad_request 400 refl e))
  committed_length-Refuses v (some (negsuc _)) = (refl, λ e. absurd (bad_request 400 refl e))
  committed_length-Refuses v (some (pos n)) =
      test-Refuses (ltb 0 v.max_size && ltb v.max_size n) 413 "Upload exceeds maximum size"
        (accept (some n, n)) refl (λ e. omega (arith, e)) tt

  deferred_length-Refuses : (v : Server) (t : Option String) → Refuses Bad (deferred_length v t)
  deferred_length-Refuses v none = (refl, λ e. absurd (bad_request 400 refl e))
  deferred_length-Refuses v (some t) = committed_length-Refuses v (int t)

  unchanged_length-Refuses : (n : ℕ) (m : Option ℤ) → Refuses Bad (unchanged_length n m)
  unchanged_length-Refuses n none = (refl, λ e. absurd (bad_request 400 refl e))
  unchanged_length-Refuses n (some (negsuc _)) = (refl, λ e. absurd (bad_request 400 refl e))
  unchanged_length-Refuses n (some (pos m)) =
      test-Refuses (not (eqb m n)) 400 "Upload-Length already committed and cannot be changed"
        (accept (none, n)) refl (bad_request 400 refl) tt

  resent_length-Refuses : (n : ℕ) (t : Option String) → Refuses Bad (resent_length n t)
  resent_length-Refuses n none = tt
  resent_length-Refuses n (some t) = unchanged_length-Refuses n (int t)

  plan_length-Refuses :
      (v : Server) (declared : Option ℕ) (headers : Dict String)
      → Refuses Bad (plan_length v declared headers)
  unfolding plan_length
  plan_length-Refuses v none headers =
      deferred_length-Refuses v (nonempty (Dict.get headers "upload-length"))
  plan_length-Refuses v (some n) headers =
      resent_length-Refuses n (Dict.get headers "upload-length")

  compare_digest-Refuses :
      (v : Server) (algo : String) (body : Bytes) (provided : Option String)
      → Refuses Bad (compare_digest v algo body provided)
  compare_digest-Refuses v algo body none = (refl, λ e. absurd (bad_request 400 refl e))
  compare_digest-Refuses v algo body (some provided) =
      elim (Bool-cases (not (compute v.library.hexdigest algo body == provided))) [
        | inl differs ↦ rw differs (refl, λ e. absurd (omega (arith, e)))
        | inr same ↦ rw same tt
      ]

  checksum_parts-Refuses :
      (v : Server) (body : Bytes) (parts : Option (String × String))
      → Refuses Bad (checksum_parts v body parts)
  checksum_parts-Refuses v body none = (refl, λ e. absurd (bad_request 400 refl e))
  checksum_parts-Refuses v body (some (algo, checksum)) =
      test-Refuses (not (is_supported v.checksums algo)) 400
        ("Unsupported checksum algorithm: " <> algo)
        (compare_digest v algo body (v.library.b64decode_hex checksum)) refl (bad_request 400 refl)
        (compare_digest-Refuses v algo body (v.library.b64decode_hex checksum))

  given_checksum-Refuses :
      (v : Server) (body : Bytes) (t : Option String) → Refuses Bad (given_checksum v body t)
  given_checksum-Refuses v body none = tt
  given_checksum-Refuses v body (some t) = checksum_parts-Refuses v body (split_once b' ' t)

  check_checksum-Refuses :
      (v : Server) (headers : Dict String) (body : Bytes)
      → Refuses Bad (check_checksum v headers body)
  unfolding check_checksum
  check_checksum-Refuses v headers body =
      given_checksum-Refuses v body (nonempty (Dict.get headers "upload-checksum"))

-- The only conflict that the plan finds is one of the offsets.
matching_offset-Refuses :
    (offset n : ℕ) → Refuses (n ≢ offset) (matching_offset offset (some (pos n)))
matching_offset-Refuses offset n = elim (Bool-cases (eqb n offset)) [
  | inl same ↦ rw same tt
  | inr other ↦ rw other (refl, λ _ e. ground (arith, e, other))
]

plan_offset-Refuses :
    (offset : ℕ) (headers : Dict String) (t : String) (n : ℕ)
    → nonempty (Dict.get headers "upload-offset") ≡ some t
    → int t ≡ some (pos n)
    → Refuses (n ≢ offset) (plan_offset offset headers)
unfolding plan_offset
plan_offset-Refuses offset headers t n given parsed =
    rw (given, parsed) (matching_offset-Refuses offset n)

-- For a request whose Upload-Offset is a number, every refusal of the plan is an error, and it is a
-- conflict only where that number is not the stored offset.
pub plan_patch-Refuses :
    (v : Server) (now : ℕ) (u : Upload) (headers : Dict String) (body : Bytes) (t : String) (n : ℕ)
    → nonempty (Dict.get headers "upload-offset") ≡ some t
    → int t ≡ some (pos n)
    → Refuses (n ≢ u.offset) (plan_patch v now u headers body)
unfolding plan_patch
plan_patch-Refuses v now u headers body t n given parsed =
    let Bad : Type 0 = n ≢ u.offset in
    test-Refuses Bad (has_expired u.expires_at now) 410 "Upload has expired" _ refl
      (λ e. omega (arith, e))
      (test-Refuses Bad u.completed 403 "Upload already completed" _ refl (λ e. omega (arith, e))
        (test-Refuses Bad (not (is_empty u.concat_partial_ids)) 403
          "Cannot PATCH a final (concatenated) upload" _ refl (λ e. omega (arith, e))
          (test-Refuses Bad
            (not (
              or_default (Dict.get headers "content-type") "" == "application/offset+octet-stream"))
            415 "Invalid Content-Type" _ refl (λ e. omega (arith, e))
            (bind-Refuses Bad (plan_length v u.upload_length headers) _
              (plan_length-Refuses Bad v u.upload_length headers)
              λ lengths.
                bind-Refuses Bad (plan_offset u.offset headers) _
                  (plan_offset-Refuses u.offset headers t n given parsed)
                  λ offset.
                    bind-Refuses Bad (check_checksum v headers body) _
                      (check_checksum-Refuses Bad v headers body)
                      λ _.
                        test-Refuses Bad (ltb lengths.1 (offset + length body)) 400
                          "Chunk would exceed declared upload length" _ refl (λ e. omega (arith, e))
                          (test-Refuses Bad
                            (ltb 0 v.max_chunk_size && ltb v.max_chunk_size (length body)) 413
                            "Chunk exceeds maximum chunk size" _ refl (λ e. omega (arith, e))
                            tt)))))

-- An accepted request was sent for the stored offset.
pub plan_patch-at_offset :
    (v : Server) (now : ℕ) (u : Upload) (headers : Dict String) (body : Bytes) (plan : PatchPlan)
    (t : String) (n : ℕ)
    → nonempty (Dict.get headers "upload-offset") ≡ some t
    → int t ≡ some (pos n)
    → plan_patch v now u headers body ≡ accept plan
    → u.offset ≡ n
unfolding plan_patch
plan_patch-at_offset v now u headers body plan t n given parsed h = ground arith
