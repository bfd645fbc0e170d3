-- ===== src/Server/Patch/Finish.antt =====
-- What follows an accepted PATCH of an upload that is not a partial one: the store, the metrics and
-- the calls of hooks that `finish` leaves.
use resumable_upload.Prelude.{
  ℕ, Bool, ap, ◌≡◌, refl, String, true, false, Option, none, some, List, [], ◌∷◌, ◌++◌, leb,
  Option-cases, inl, inr,
}
use resumable_upload.Prelude.Dict.{Dict}
use resumable_upload.Exec.{ok}
use resumable_upload.Metrics.{Registry}
use resumable_upload.Storage.{Upload, Storage}
use resumable_upload.Storage.Contract.{IsLawful, is_open}
use resumable_upload.Server.{
  Server, World, Completion, HookCall, HookResult, invoke_post_hook, count_in,
}
use resumable_upload.Server.Patch.{PatchPlan}
use resumable_upload.Server.Patch.Handler.{fire_complete, on_completed, finish}

abbrev pub CompleteHook : Type 0
CompleteHook = String → Dict String → Dict String → HookResult (Option Completion)

-- The call of on_upload_complete, where there is a hook.
abbrev pub complete_call : Option CompleteHook → String → Dict String → List HookCall
complete_call none id metadata = []
complete_call (some hook) id metadata = HookCall.complete id metadata ∷ []

abbrev pub complete_result :
    Option CompleteHook → String → Dict String → Dict String → Option Completion
complete_result none id metadata file_info = none
complete_result (some hook) id metadata file_info = invoke_post_hook (hook id metadata file_info)

pub append_none : (l : List HookCall) → l ++ [] ≡ l
append_none [] = refl
append_none (c ∷ l) = ap (λ (t : List HookCall). c ∷ t) (append_none l)

module _ (S : Storage) (v : Server) where
  pub fire_complete_lem :
      (id : String) (metadata : Dict String) (w : World S.State)
      → fire_complete S v id false metadata w ≡ (
        ok (complete_result v.on_upload_complete id metadata (S.get_file_info id)),
        record w { calls = w.calls ++ complete_call v.on_upload_complete id metadata },
      )
  unfolding fire_complete
  fire_complete_lem id metadata w = elim (Option-cases v.on_upload_complete) [
    | inl e ↦ rw (e, append_none w.calls) refl
    | inr (hook, e) ↦ rw e refl
  ]

  abbrev pub counted : World S.State → Option Registry
  counted w = count_in w.metrics "tusd_uploads_finished_total" 1 []

  on_completed_lem :
      (id : String) (u : Upload) (w : World S.State)
      → u.is_partial ≡ false
      → on_completed S v id u w ≡ (
        ok (complete_result v.on_upload_complete id u.metadata (S.get_file_info id)),
        record w {
          metrics = counted w;
          calls = w.calls ++ complete_call v.on_upload_complete id u.metadata;
        },
      )
  unfolding on_completed
  on_completed_lem id u w whole =
      rw (whole, fire_complete_lem id u.metadata (record w { metrics = counted w })) refl

  -- An upload that reaches its length is completed, counted and announced.
  pub finish-reached :
      {can_store : ℕ → Bool} (L : IsLawful S can_store) (id : String) (u : Upload)
      (plan : PatchPlan) (w : World S.State)
      → u.is_partial ≡ false
      → is_open (S.get_upload w.store id) ≡ true
      → leb plan.effective_length plan.new_offset ≡ true
      → finish S v id u plan w ≡ (
        ok (complete_result v.on_upload_complete id u.metadata (S.get_file_info id)),
        record {
          store = (S.complete_upload id w.store).1;
          metrics = counted w;
          calls = w.calls ++ complete_call v.on_upload_complete id u.metadata;
        },
      )
  unfolding finish
  finish-reached L id u plan w whole fresh reached =
      rw
        (
          reached,
          L.result-complete_upload w.store id,
          fresh,
          on_completed_lem id u (record w { store = (S.complete_upload id w.store).1 }) whole,
        )
        refl

  pub finish-short :
      (id : String) (u : Upload) (plan : PatchPlan) (w : World S.State)
      → leb plan.effective_length plan.new_offset ≡ false
      → finish S v id u plan w ≡ (ok none, w)
  unfolding finish
  finish-short id u plan w short = rw short refl
