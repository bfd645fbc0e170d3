-- ===== src/Server/Create/Creates.antt =====
-- What a POST that is not a concatenation creates.
use resumable_upload.Prelude.{
  ℕ, Bool, ◌≤◌, ◌<◌, ◌≡◌, refl, String, ◌==◌, starts_with, eq_iff, true, false, not, ◌&&◌, Option,
  none, some, Bytes, length, arith, Bool-cases, inl, inr,
}
use resumable_upload.Prelude.Dict.{Dict}
use resumable_upload.Exec.{ok}
use resumable_upload.Storage.{Upload, Storage}
use resumable_upload.Storage.Contract.{IsLawful, Fits}
use resumable_upload.Storage.Sound.{IsSound, AllSound, moved, transfer}
use resumable_upload.Server.{Server, World, Context, apply_completion_response}
use resumable_upload.Server.Checked.{accept}
use resumable_upload.Server.Create.{CreatePlan, plan_create, create_response}
use resumable_upload.Server.Create.Handler.{reached, apply_create, concat_header, handle_create}
use resumable_upload.Server.Create.Writes.{
  initial, created_upload, registered, filled, read-filled, get-filled, filled-elsewhere,
  closed_lem, read-closed, get-closed_elsewhere,
}
use resumable_upload.Server.Create.Applies.{
  told, calls_after, created_count, get-registered, read-registered, registered-elsewhere,
  apply_create_lem,
}

-- The request is not a concatenation, and its Upload-Concat header, if any, is allowed.
abbrev pub IsPlain : Server → Dict String → Type 0
IsPlain v headers =
    (starts_with (concat_header headers) "final" ≡ false)
    × ((not (concat_header headers == "") && v.disable_concatenation) ≡ false)

at_length :
    (n : ℕ) (declared : Option ℕ)
    → ((m : ℕ) → declared ≡ some m → n ≤ m)
    → reached n declared ≡ true
    → declared ≡ some n
at_length n none fits done = ground arith
at_length n (some m) fits done = let within : n ≤ m = fits m refl in ground arith

module _ (S : Storage) {can_store : ℕ → Bool} (L : IsLawful S can_store) (v : Server) where
  created-IsSound :
      (s : S.State) (plan : CreatePlan) (body : Bytes)
      → S.read_file s plan.upload_id ≡ ok (initial plan body)
      → ((n : ℕ) → plan.upload_length ≡ some n → length (initial plan body) ≤ n)
      → IsSound S s plan.upload_id (created_upload plan (length (initial plan body)))
  created-IsSound s plan body stored fits = record {
    covered = rw stored (ground arith);
    bounded = fits;
    whole = at_length (length (initial plan body)) plan.upload_length fits;
  }

  handle_create_lem :
      (c : Context) (headers : Dict String) (body : Bytes) (w : World S.State) (plan : CreatePlan)
      → IsPlain v headers
      → plan_create v c headers body ≡ accept plan
      → handle_create S v c headers body w ≡ apply_create S v plan headers body w
  unfolding handle_create
  handle_create_lem c headers body w plan (plain, allowed) planned =
      rw (allowed, plain, planned) refl

  -- A creation that is accepted, under an id that is not taken and with a declared length, if any,
  -- that the storage can store, registers one upload: its offset is the length of the body that was
  -- sent for it, its file holds that body, and it is completed if and only if the offset reaches
  -- the declared length. The answer is the 201 response for that offset; where the upload is
  -- complete and not a partial one, on_upload_complete is called once, if there is one, and its
  -- result is applied to the response, and otherwise no hook is called and the response is plain.
  -- One upload is counted as created, and as finished if it is complete. Every other upload and
  -- file is as before.
  pub handle_create-creates :
      (c : Context) (headers : Dict String) (body : Bytes) (w : World S.State) (plan : CreatePlan)
      → IsPlain v headers
      → plan_create v c headers body ≡ accept plan
      → Fits can_store plan.upload_length
      → S.get_upload w.store plan.upload_id ≡ none
      → let (r, w') = handle_create S v c headers body w in
        let sent = initial plan body in
        (S.get_upload w'.store plan.upload_id ≡ some (created_upload plan (length sent)))
        × (S.read_file w'.store plan.upload_id ≡ ok sent)
        × (r
            ≡ ok (
                apply_completion_response
                  (told S L v plan (length sent))
                  (create_response v plan (length sent) headers)))
        × (w'.calls ≡ calls_after S L v plan (length sent) w.calls)
        × (w'.metrics ≡ created_count plan (length sent) w.metrics)
        × ((j : String)
            → (plan.upload_id == j) ≡ false
            → (S.get_upload w'.store j ≡ S.get_upload w.store j)
              × (S.read_file w'.store j ≡ S.read_file w.store j))
  handle_create-creates c headers body w plan plain planned storable fresh =
      let n = length (initial plan body) in
      let s1 = registered S L v plan w.store in
      let s2 = filled S L v plan body s1 in
      rw
        (
          handle_create_lem c headers body w plan plain planned,
          apply_create_lem S L v plan headers body w storable fresh,
        )
        (
          closed_lem S L v plan n s2 _
              (get-filled S L v plan body s1 _
                (get-registered S L v plan headers body w storable fresh) refl)
              refl,
          rw (read-closed S L v plan n s2 plan.upload_id) (
              read-filled S L v plan body s1
                (read-registered S L v plan headers body w storable fresh)),
          refl,
          refl,
          refl,
          λ j other.
              let (get_filled, read_filled) = filled-elsewhere S L v plan body s1 j other in
              let (get_first, read_first) =
                registered-elsewhere S L v plan headers body w storable fresh j other in
              (
                rw (get-closed_elsewhere S L v plan n s2 j other, get_filled) get_first,
                rw (read-closed S L v plan n s2 j, read_filled) read_first,
              ),
        )

  -- A creation whose stored body stays within the declared length, where the storage can store that
  -- length, leaves every upload sound.
  pub handle_create-AllSound :
      (c : Context) (headers : Dict String) (body : Bytes) (w : World S.State) (plan : CreatePlan)
      → IsPlain v headers
      → plan_create v c headers body ≡ accept plan
      → Fits can_store plan.upload_length
      → S.get_upload w.store plan.upload_id ≡ none
      → ((n : ℕ) → plan.upload_length ≡ some n → length (initial plan body) ≤ n)
      → AllSound S w.store
      → AllSound S (handle_create S v c headers body w).1.store
  unfolding AllSound
  handle_create-AllSound c headers body w plan plain planned storable fresh fits sound j u found =
      let s = (handle_create S v c headers body w).1.store in
      let post = handle_create-creates c headers body w plan plain planned storable fresh in
      elim (Bool-cases (plan.upload_id == j)) [
        | inl same ↦
            moved S s plan.upload_id j _ u ((eq_iff plan.upload_id j).0 same) post.0 found
              (created-IsSound s plan body post.1 fits)
        | inr other ↦
            transfer S w.store s j u (post.5 j other).1
              (sound j u (rw (← (post.5 j other).0) found))
      ]

  -- A creation may store more than it declares: where the body that is sent with the POST is longer
  -- than Upload-Length, where the storage can store that length, the request is accepted like any
  -- other, and leaves a completed upload whose offset is beyond its length.
  pub handle_create-overruns :
      (c : Context) (headers : Dict String) (body : Bytes) (w : World S.State) (plan : CreatePlan)
      (n : ℕ)
      → IsPlain v headers
      → plan_create v c headers body ≡ accept plan
      → Fits can_store plan.upload_length
      → S.get_upload w.store plan.upload_id ≡ none
      → plan.write_body ≡ true
      → plan.upload_length ≡ some n
      → n < length body
      → (u : Upload) × (S.get_upload (handle_create S v c headers body w).1.store plan.upload_id
          ≡ some u)
        × (u.completed ≡ true)
        × (u.upload_length ≡ some n)
        × (n < u.offset)
  handle_create-overruns c headers body w plan n plain planned storable fresh sent declared over = (
    created_upload plan (length (initial plan body)),
    (handle_create-creates c headers body w plan plain planned storable fresh).0,
    rw (sent, declared) (ground arith),
    declared,
    rw sent over,
  )
