-- ===== src/Server/Create/Applies.antt =====
-- What `apply_create` does to the storage and what it answers, its steps put together.
use resumable_upload.Prelude.{
  ℕ, ◌≡◌, refl, String, ◌==◌, eq_refl, Bool, true, false, Option, none, some, List, [], ◌++◌, not,
  ◌&&◌, if◌then◌else◌, Bytes, length, Option-cases, Bool-cases, inl, inr,
}
use resumable_upload.Prelude.Dict.{Dict}
use resumable_upload.Exec.{ok}
use resumable_upload.Storage.{Storage}
use resumable_upload.Storage.Contract.{IsLawful, Fits, is_open, new_upload}
use resumable_upload.Server.{
  Server, World, HookCall, Completion, count_in, apply_completion_response,
}
use resumable_upload.Metrics.{Registry}
use resumable_upload.Server.Patch.Finish.{
  CompleteHook, complete_call, complete_result, append_none, fire_complete_lem,
}
use resumable_upload.Server.Patch.Handler.{fire_complete}
use resumable_upload.Server.Create.{CreatePlan, create_response}
use resumable_upload.Server.Create.Handler.{reached, completed, complete_created, apply_create}
use resumable_upload.Server.Create.Writes.{
  initial, registered, filled, closed, get-filled, write_body_lem,
}

-- The completion hook of a creation that stored `n` bytes, where it runs: the upload is complete,
-- and is not a partial one.
abbrev pub fired : Server → CreatePlan → ℕ → Option CompleteHook
fired v plan n =
    if reached n plan.upload_length && not plan.is_partial then v.on_upload_complete else none

-- The counters after a creation that stored `n` bytes.
abbrev finished_count : CreatePlan → ℕ → Option Registry → Option Registry
finished_count plan n metrics =
    if reached n plan.upload_length
    then count_in metrics "tusd_uploads_finished_total" 1 []
    else metrics

abbrev pub created_count : CreatePlan → ℕ → Option Registry → Option Registry
created_count plan n metrics =
    finished_count plan n (count_in metrics "tusd_uploads_created_total" 1 [])

module _ (S : Storage) {can_store : ℕ → Bool} (L : IsLawful S can_store) (v : Server) where
  abbrev pub told : CreatePlan → ℕ → Option Completion
  told plan n =
      complete_result (fired v plan n) plan.upload_id plan.metadata (S.get_file_info plan.upload_id)

  abbrev pub calls_after : CreatePlan → ℕ → List HookCall → List HookCall
  calls_after plan n calls = calls ++ complete_call (fired v plan n) plan.upload_id plan.metadata

  fire_complete-partial :
      (id : String) (m : Dict String) (w : World S.State)
      → fire_complete S v id true m w ≡ (ok none, w)
  unfolding fire_complete
  fire_complete-partial id m w = elim (Option-cases v.on_upload_complete) [
    | inl e ↦ rw e refl
    | inr (hook, e) ↦ rw e refl
  ]

  completed_lem :
      (plan : CreatePlan) (n : ℕ) (w : World S.State)
      → reached n plan.upload_length ≡ true
      → completed S v plan true w ≡ (
        ok (told plan n),
        record w {
          metrics = count_in w.metrics "tusd_uploads_finished_total" 1 [];
          calls = calls_after plan n w.calls;
        },
      )
  completed_lem plan n w full =
      let w1 : World S.State = record w {
        metrics = count_in w.metrics "tusd_uploads_finished_total" 1 [];
      } in
      elim (Bool-cases plan.is_partial) [
        | inl e ↦
            rw (full, e, fire_complete-partial plan.upload_id plan.metadata w1, append_none w.calls)
              refl
        | inr e ↦ rw (full, e, fire_complete_lem S v plan.upload_id plan.metadata w1) refl
      ]

  complete_created_lem :
      (plan : CreatePlan) (n : ℕ) (w : World S.State)
      → is_open (S.get_upload w.store plan.upload_id) ≡ true
      → complete_created S v plan n w ≡ (
        ok (told plan n),
        record w {
          store = closed S L v plan n w.store;
          metrics = finished_count plan n w.metrics;
          calls = calls_after plan n w.calls;
        },
      )
  unfolding complete_created
  complete_created_lem plan n w fresh = elim (Bool-cases (reached n plan.upload_length)) [
    | inl e ↦
        rw
          (
            e,
            L.result-complete_upload w.store plan.upload_id,
            fresh,
            completed_lem plan n (record w { store = (S.complete_upload plan.upload_id w.store).1 })
                e,
            e,
          )
          refl
    | inr e ↦ rw (e, append_none w.calls) refl
  ]

  module _ (plan : CreatePlan) (headers : Dict String) (body : Bytes) (w : World S.State)
      (fits : Fits can_store plan.upload_length)
      (fresh : S.get_upload w.store plan.upload_id ≡ none) where
    abbrev pub before_close : S.State
    before_close = filled S L v plan body (registered S L v plan w.store)

    pub get-registered :
        S.get_upload (registered S L v plan w.store) plan.upload_id
        ≡ some (
            new_upload plan.upload_id plan.upload_length plan.metadata plan.expires_at
              plan.is_partial)
    get-registered =
        rw
          (
            L.get-create_upload w.store plan.upload_id plan.upload_length plan.metadata
                plan.expires_at plan.is_partial plan.upload_id fits fresh,
            eq_refl plan.upload_id,
          )
          refl

    pub read-registered : S.read_file (registered S L v plan w.store) plan.upload_id ≡ ok []
    read-registered =
        rw
          (
            L.read-create_upload w.store plan.upload_id plan.upload_length plan.metadata
                plan.expires_at plan.is_partial plan.upload_id fits fresh,
            eq_refl plan.upload_id,
          )
          refl

    pub registered-elsewhere :
        (j : String)
        → (plan.upload_id == j) ≡ false
        → (S.get_upload (registered S L v plan w.store) j ≡ S.get_upload w.store j)
          × (S.read_file (registered S L v plan w.store) j ≡ S.read_file w.store j)
    registered-elsewhere j other =
        rw
          (
            L.get-create_upload w.store plan.upload_id plan.upload_length plan.metadata
                plan.expires_at plan.is_partial j fits fresh,
            L.read-create_upload w.store plan.upload_id plan.upload_length plan.metadata
                plan.expires_at plan.is_partial j fits fresh,
            other,
          )
          (refl, refl)

    pub apply_create_lem :
        let n = length (initial plan body) in
        apply_create S v plan headers body w ≡ (
          ok (apply_completion_response (told plan n) (create_response v plan n headers)),
          record w {
            store = closed S L v plan n before_close;
            metrics = created_count plan n w.metrics;
            calls = calls_after plan n w.calls;
          },
        )
    unfolding apply_create
    apply_create_lem =
        let w1 : World S.State = record w {
          store = before_close;
          metrics = count_in w.metrics "tusd_uploads_created_total" 1 [];
        } in
        let w0 : World S.State = record w1 { store = registered S L v plan w.store } in
        rw
          (
            L.ok-create_upload w.store plan.upload_id plan.upload_length plan.metadata
                plan.expires_at plan.is_partial fits fresh,
            write_body_lem S L v plan body w0,
            complete_created_lem plan (length (initial plan body)) w1 (
                rw
                  (get-filled S L v plan body (registered S L v plan w.store) _ get-registered refl)
                  refl),
          )
          refl
