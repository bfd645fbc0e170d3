-- ===== src/Tests/Creating.antt =====
-- POST of an upload of three bytes, with a body of two and with one of four.
use resumable_upload.Prelude.{
  ◌<◌, ◌≡◌, refl, String, ◌==◌, true, false, none, some, [], ◌∷◌, Bytes, length, arith, int, strip,
}
use resumable_upload.Prelude.Dict
use resumable_upload.Prelude.Dict.{Dict}
use resumable_upload.Exec.{ok}
use resumable_upload.Headers.{parse_metadata}
use resumable_upload.Storage.{Upload}
use resumable_upload.Storage.Sound.{AllSound}
use resumable_upload.Server.{World, Context, count_in, apply_completion_response}
use resumable_upload.Server.Checked.{accept}
use resumable_upload.Server.Create.{
  CreatePlan, plan_create, create_response, plan_create_length, plan_metadata, run_create_hook,
}
use resumable_upload.Server.Create.Handler.{handle_create}
use resumable_upload.Server.Create.Writes.{initial, created_upload}
use resumable_upload.Server.Create.Creates.{
  IsPlain, handle_create-creates, handle_create-AllSound, handle_create-overruns,
}
use resumable_upload.Sqlite.{Db, get_upload}
use resumable_upload.Sqlite.Lawful.{sqlite_storage-IsLawful}
use resumable_upload.Tests.Data.{v, S, no_uploads, in_world, file_path}

abbrev w : World Db
w = in_world no_uploads

abbrev c : Context
c = record { now = 0; uuid = "a" }

abbrev headers : Dict String
headers = ("upload-length", "3") ∷ ("content-type", "application/offset+octet-stream") ∷ []

abbrev body : Bytes
body = 7 ∷ 8 ∷ []

abbrev long_body : Bytes
long_body = 7 ∷ 8 ∷ 9 ∷ 9 ∷ []

abbrev plan : CreatePlan
plan = record {
  upload_id = "a";
  upload_length = some 3;
  metadata = [];
  expires_at = none;
  is_partial = false;
  write_body = true;
}

plain : IsPlain v headers
unfolding Dict.get strip
plain = (refl, refl)

planned : plan_create v c headers body ≡ accept plan
unfolding plan_create plan_create_length plan_metadata run_create_hook Dict.get int strip
    parse_metadata
planned = refl

long_planned : plan_create v c headers long_body ≡ accept plan
unfolding plan_create plan_create_length plan_metadata run_create_hook Dict.get int strip
    parse_metadata
long_planned = refl

fresh : S.get_upload w.store plan.upload_id ≡ none
unfolding get_upload Dict.get
fresh = refl

handle_create-creates_example :
    let (r, w') = handle_create S v c headers body w in
    let sent = initial plan body in
    (S.get_upload w'.store plan.upload_id ≡ some (created_upload plan (length sent)))
    × (S.read_file w'.store plan.upload_id ≡ ok sent)
    × (r ≡ ok (create_response v plan 2 headers))
    × (w'.calls ≡ w.calls)
    × (w'.metrics ≡ count_in w.metrics "tusd_uploads_created_total" 1 [])
    × ((j : String)
        → (plan.upload_id == j) ≡ false
        → (S.get_upload w'.store j ≡ S.get_upload w.store j)
          × (S.read_file w'.store j ≡ S.read_file w.store j))
unfolding create_response apply_completion_response
handle_create-creates_example =
    handle_create-creates S (sqlite_storage-IsLawful file_path) v c headers body w plan plain
      planned refl fresh

all_sound : AllSound S no_uploads
unfolding AllSound get_upload Dict.get
all_sound j u found = cc found

handle_create-AllSound_example : AllSound S (handle_create S v c headers body w).1.store
handle_create-AllSound_example =
    handle_create-AllSound S (sqlite_storage-IsLawful file_path) v c headers body w plan plain
      planned refl fresh (λ n e. let three : 3 ≡ n = cc e in rw (← three) (omega arith)) all_sound

handle_create-overruns_example :
    (u : Upload) × (S.get_upload (handle_create S v c headers long_body w).1.store plan.upload_id
      ≡ some u)
    × (u.completed ≡ true)
    × (u.upload_length ≡ some 3)
    × (3 < u.offset)
handle_create-overruns_example =
    handle_create-overruns S (sqlite_storage-IsLawful file_path) v c headers long_body w plan 3
      plain long_planned refl fresh refl refl (omega arith)
