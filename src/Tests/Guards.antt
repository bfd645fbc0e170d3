-- ===== src/Tests/Guards.antt =====
-- The gates of a request, the locks, the ids and the counters.
use resumable_upload.Prelude.{
  ◌≤◌, ◌≡◌, ◌≢◌, refl, String, ◌<>◌, eq_iff, true, false, Option, none, some, List, [], ◌∷◌, arith,
  words, split_once, contains_text,
}
use resumable_upload.Prelude.Dict
use resumable_upload.Prelude.Dict.{Dict}
use resumable_upload.Headers.{parse_metadata, validate_upload_id, uuid_rest, hex_run, is_hex, dash}
use resumable_upload.Headers.Ids.{validate_upload_id-line_feed}
use resumable_upload.Locks.Waiting.{acquire_ends}
use resumable_upload.Locks.{Round, Holders, LockBackend, attempt, release, acquire, memory_backend}
use resumable_upload.Locks.Exclusion.{
  attempted, released, run_events, attempt-exclusive, release_frees,
}
use resumable_upload.Metrics.{Registry}
use resumable_upload.Server.{Context}
use resumable_upload.Server.Checked.{accept}
use resumable_upload.Server.Create.{plan_metadata}
use resumable_upload.Server.Final.{
  CreateFinalPlan, partial_id, parse_partial_ids, plan_create_final,
}
use resumable_upload.Server.Final.Safety.{AreSafe, plan_create_final-AreSafe}
use resumable_upload.Server.Request.{is_version, route, Site, normalize_headers, handle_request}
use resumable_upload.Server.Request.Safety.{IsSafe, route-IsSafe, handle_request-needs_version}
use resumable_upload.Sqlite.{Db}
use resumable_upload.Tests.Data.{v, S, one_upload, in_world}

abbrev uuid : String
uuid = "0123abcd-0123-abcd-0123-0123456789ab"

whole_uuid : uuid_rest uuid ≡ some ""
unfolding uuid_rest hex_run dash is_hex
whole_uuid = refl

validate_upload_id-line_feed_example : validate_upload_id (uuid <> "\n") ≡ true
validate_upload_id-line_feed_example = validate_upload_id-line_feed uuid whole_uuid

route-IsSafe_example : IsSafe (route v "DELETE" "/files/../a")
route-IsSafe_example = route-IsSafe v "DELETE" "/files/../a"

-- A final over one partial upload, by its URL.
abbrev final_header : String
final_header = "final;/files/0123abcd-0123-abcd-0123-0123456789ab"

abbrev final_plan : CreateFinalPlan
final_plan = record { final_id = "f"; partial_ids = uuid ∷ []; metadata = []; expires_at = none }

final_planned :
    plan_create_final v (record { now = 0; uuid = "f" }) final_header [] ≡ accept final_plan
unfolding plan_create_final parse_partial_ids partial_id plan_metadata parse_metadata words
    validate_upload_id uuid_rest hex_run dash is_hex Dict.get split_once contains_text
final_planned = refl

plan_create_final-AreSafe_example : AreSafe (uuid ∷ [])
plan_create_final-AreSafe_example =
    plan_create_final-AreSafe v (record { now = 0; uuid = "f" }) final_header [] final_plan
      final_planned

-- A lock that nobody holds, and a wait that ends at 5.
abbrev L : LockBackend
L = memory_backend 30 5 (record { now = 1; token = "t"; after = 2; others = λ h. h } ∷ [])

abbrev s : Site Db L.State
s = record { world = in_world one_upload; locks = []; last_cleanup = none }

abbrev c : Context
c = record { now = 0; uuid = uuid }

no_version : is_version (Dict.get (normalize_headers []) "tus-resumable") ≡ false
unfolding normalize_headers Dict.get
no_version = refl

handle_request-needs_version_example :
    let s' = (handle_request S L v c "DELETE" "/files/a" [] [] s).1 in
    (s'.world.store ≡ s.world.store) × (s'.world.calls ≡ s.world.calls) × (s'.locks ≡ s.locks)
handle_request-needs_version_example =
    handle_request-needs_version S L v c "DELETE" "/files/a" [] [] s refl no_version

taken : (attempt "a" 30 1 "t" []).0 ≡ some "t"
unfolding attempt Dict.get
taken = refl

different : ◌≢◌ {A = String} "u" "t"
different e = cc ((eq_iff "u" "t").1 e)

attempt-exclusive_example :
    let h' =
      run_events (released "a" "u" ∷ attempted "a" 30 4 "u" ∷ []) (attempt "a" 30 1 "t" []).1 in
    attempt "a" 30 9 "u" h' ≡ (none, h')
attempt-exclusive_example =
    attempt-exclusive "a" [] 30 1 30 9 "t" "u" (released "a" "u" ∷ attempted "a" 30 4 "u" ∷ [])
      taken (different, (omega arith, tt)) (omega arith)

abbrev held : Holders
held = ("a", record { token = "t"; expires = 31 }) ∷ []

is_held : Dict.get held "a" ≡ some (record { token = "t"; expires = 31 })
unfolding Dict.get
is_held = refl

release_frees_example :
    ((attempt "a" 30 2 "u" (release "a" "t" held)).0 ≡ some "u")
    × (31 ≤ 2 → (attempt "a" 30 2 "u" held).0 ≡ some "u")
    × (release "a" "u" held ≡ held)
release_frees_example =
    release_frees "a" held (record { token = "t"; expires = 31 }) 30 2 "u" "u" is_held different

abbrev registry : Registry
registry = record { counters = []; help = [] }

abbrev one_round : List Round
one_round = record { now = 1; token = "t"; after = 6; others = λ h. h } ∷ []

acquire_ends_example : (r : Option String × Holders) × (acquire "a" 30 5 one_round held ≡ some r)
acquire_ends_example = acquire_ends "a" 30 5 one_round held refl

free_run :
    acquire "a" 30 5 one_round []
    ≡ some (some "t", ("a", record { token = "t"; expires = 31 }) ∷ [])
unfolding acquire attempt Dict.get Dict.put
free_run = refl
