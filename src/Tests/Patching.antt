-- ===== src/Tests/Patching.antt =====
-- PATCH on an upload of five bytes at offset two.
use resumable_upload.Prelude.{
  ℕ, ◌+◌, ◌≤◌, ◌≡◌, refl, String, ◌==◌, true, false, none, some, [], ◌∷◌, ◌++◌, Bytes, length, take,
  leb, arith, eq_iff, Bool-cases, inl, inr, int,
}
use resumable_upload.Prelude.Dict
use resumable_upload.Prelude.Dict.{Dict}
use resumable_upload.Exec.{Error, ok, raise}
use resumable_upload.Storage.{Upload}
use resumable_upload.Storage.Contract.{bytes_or_empty}
use resumable_upload.Storage.Sound.{AllSound}
use resumable_upload.Server.{World, error_response, count_in, apply_completion_response}
use resumable_upload.Server.{Server, HookCall, HookResult, rejected, hook_error}
use resumable_upload.Server.Patch.Stops.{handle_patch-stops}
use resumable_upload.Server.Patch.Accepted.{IsAcceptable, plan_patch-IsAcceptable}
use resumable_upload.Server.Patch.Finish.{complete_call, complete_result}
use resumable_upload.Server.Patch.Replies.{handle_patch-announces, apply_plan-conflict}
use resumable_upload.Server.Patch.Sound.{handle_patch-AllSound}
use resumable_upload.Server.Checked.{accept}
use resumable_upload.Sqlite.{Db, to_upload, get_upload, read_file, read_ids}
use resumable_upload.Sqlite.Lawful.{sqlite_storage-IsLawful}
use resumable_upload.Server.Patch.{PatchPlan, plan_patch, plan_length, plan_offset, check_checksum}
use resumable_upload.Server.Patch.Appends.{extended, handle_patch-appends}
use resumable_upload.Server.Patch.Handler.{handle_patch, apply_plan, patch_response}
use resumable_upload.Tests.Data.{v, S, started, one_upload, in_world, patch_headers, file_path}

abbrev pub w : World Db
w = in_world one_upload

abbrev pub u : Upload
u = to_upload "a" started

abbrev pub body : Bytes
body = 3 ∷ 4 ∷ 5 ∷ []

abbrev pub plan : PatchPlan
plan = record {
  expected_offset = 2;
  new_offset = 5;
  effective_length = 5;
  commit_length = none;
  expires_at = none;
}

abbrev pub now : ℕ
now = 0

abbrev pub headers : Dict String
headers = patch_headers

abbrev pub id : String
id = "a"

pub found : get_upload one_upload id ≡ some u
unfolding get_upload Dict.get
found = refl

pub planned : plan_patch v now u headers body ≡ accept plan
unfolding plan_patch plan_length plan_offset check_checksum Dict.get int read_ids
planned = refl

pub covered : u.offset ≤ length (bytes_or_empty (read_file one_upload id))
unfolding read_file Dict.get
covered = omega arith

handle_patch-appends_example :
    let s = (handle_patch S v now id headers body w).1.store in
    (S.get_upload s id ≡ some (extended u (length body) plan.effective_length))
    × (take (u.offset + length body) (bytes_or_empty (S.read_file s id))
        ≡ take u.offset (bytes_or_empty (S.read_file w.store id)) ++ body)
    × ((j : String)
        → (id == j) ≡ false
        → (S.get_upload s j ≡ S.get_upload w.store j) × (S.read_file s j ≡ S.read_file w.store j))
handle_patch-appends_example =
    handle_patch-appends S (sqlite_storage-IsLawful file_path) v now id headers body w u plan found
      planned tt refl refl covered

all_sound : AllSound S one_upload
unfolding AllSound get_upload Dict.get
all_sound j u' found' = elim (Bool-cases (id == j)) [
  | inl same ↦
      let here : id ≡ j = (eq_iff id j).0 same in
      let is_u : u ≡ u' = cc (found, rw (← here) at found') in
      rw (← here, ← is_u)
        (record {
          covered = covered;
          bounded = λ n e. (let five : 5 ≡ n = cc e in rw (← five) (omega arith));
          whole = λ e. cc e;
        })
  | inr other ↦ cc (rw other at found')
]

whole_upload : (u' : Upload) → S.get_upload w.store id ≡ some u' → u'.is_partial ≡ false
whole_upload u' found' = let is_u : u ≡ u' = cc (found, found') in rw (← is_u) refl

handle_patch-AllSound_example : AllSound S (handle_patch S v now id headers body w).1.store
handle_patch-AllSound_example =
    handle_patch-AllSound S (sqlite_storage-IsLawful file_path) v now id headers body w all_sound
      whole_upload refl

plan_patch-IsAcceptable_example : IsAcceptable v now u body plan
plan_patch-IsAcceptable_example = plan_patch-IsAcceptable v now u headers body plan planned

handle_patch-announces_example :
    let (r, w') = handle_patch S v now id headers body w in
    (leb plan.effective_length plan.new_offset ≡ true
      → (r
          ≡ ok (
              apply_completion_response
                (complete_result v.on_upload_complete id u.metadata (S.get_file_info id))
                (patch_response v plan)))
        × (w'.calls ≡ w.calls ++ complete_call v.on_upload_complete id u.metadata)
        × (w'.metrics
            ≡ count_in
                (count_in w.metrics "tusd_bytes_received_total" (length body) [])
                "tusd_uploads_finished_total"
                1
                []))
    × (leb plan.effective_length plan.new_offset ≡ false
        → (r ≡ ok (patch_response v plan))
          × (w'.calls ≡ w.calls)
          × (w'.metrics ≡ count_in w.metrics "tusd_bytes_received_total" (length body) []))
handle_patch-announces_example =
    handle_patch-announces S (sqlite_storage-IsLawful file_path) v now id headers body w u plan
      found planned tt refl refl

-- A request that was planned at offset zero, with a length to commit, and comes to write when the
-- offset is two.
abbrev late_plan : PatchPlan
late_plan = record plan { expected_offset = 0; new_offset = 3; commit_length = some 6 }

apply_plan-conflict_example :
    let (r, w') = apply_plan S v id u late_plan body w in
    (r ≡ ok (error_response 409 "Concurrent write conflict; use HEAD to re-sync"))
    × (S.get_upload w'.store id ≡ some (record u { upload_length = some 6 }))
    × (w'.metrics ≡ w.metrics)
    × (w'.calls ≡ w.calls)
    × (take (late_plan.expected_offset + length body) (bytes_or_empty (S.read_file w'.store id))
        ≡ take late_plan.expected_offset (bytes_or_empty (S.read_file w.store id)) ++ body)
apply_plan-conflict_example =
    apply_plan-conflict S (sqlite_storage-IsLawful file_path) v id u u late_plan body w found refl
      refl (omega arith)

abbrev stop : String → ℕ → ℕ → HookResult Unit
stop _ _ _ = rejected 403 "stop"

abbrev strict : Server
strict = record v { on_chunk_received = some stop }

strict_planned : plan_patch strict now u headers body ≡ accept plan
unfolding plan_patch plan_length plan_offset check_checksum Dict.get int read_ids
strict_planned = refl

handle_patch-stops_example :
    let (r, w') = handle_patch S strict now id headers body w in
    (r ≡ ok (hook_error 403 "stop"))
    × (S.get_upload w'.store id ≡ none)
    × ((e : Error) × (S.read_file w'.store id ≡ raise e))
    × (w'.metrics ≡ count_in w.metrics "tusd_bytes_received_total" (length body) [])
    × (w'.calls ≡ w.calls ++ HookCall.chunk_received id plan.new_offset (length body) ∷ [])
    × ((j : String)
        → (id == j) ≡ false
        → (S.get_upload w'.store j ≡ S.get_upload w.store j)
          × (S.read_file w'.store j ≡ S.read_file w.store j))
handle_patch-stops_example =
    handle_patch-stops S (sqlite_storage-IsLawful file_path) strict now id headers body w u plan
      stop 403 "stop" found strict_planned tt refl refl
