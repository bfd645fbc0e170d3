-- ===== src/Tests/Serving.antt =====
-- A chunk that arrives as a POST with a method override, from the request to the storage.
use resumable_upload.Prelude.{
  ◌+◌, ◌≤◌, ◌≡◌, refl, String, ◌==◌, false, none, some, [], ◌∷◌, ◌++◌, Bytes, length, take, arith,
  int, strip, upper, lower,
}
use resumable_upload.Prelude.Dict
use resumable_upload.Prelude.Dict.{Dict}
use resumable_upload.Headers.{validate_upload_id, uuid_rest, hex_run, is_hex, dash}
use resumable_upload.Locks.{LockBackend, attempt, acquire, memory_backend}
use resumable_upload.Storage.{Upload}
use resumable_upload.Storage.Contract.{bytes_or_empty}
use resumable_upload.Server.{Context}
use resumable_upload.Server.Checked.{accept}
use resumable_upload.Server.Patch.{PatchPlan, plan_patch, plan_length, plan_offset, check_checksum}
use resumable_upload.Server.Patch.Appends.{extended}
use resumable_upload.Server.Request.{
  Site, patch, normalize_headers, override_method, check_sizes, run_incoming_hook, check_version,
  gate, admit, route, handle_request,
}
use resumable_upload.Server.Request.Appends.{handle_request-appends}
use resumable_upload.Sqlite.{Db, to_upload, get_upload, read_file, read_ids}
use resumable_upload.Sqlite.Lawful.{sqlite_storage-IsLawful}
use resumable_upload.Tests.Data.{v, S, started, in_world, file_path}

abbrev pub uuid : String
uuid = "0123abcd-0123-abcd-0123-0123456789ab"

abbrev pub path : String
path = "/files/0123abcd-0123-abcd-0123-0123456789ab"

abbrev raw_headers : Dict String
raw_headers =
    ("Tus-Resumable", "1.0.0")
    ∷ ("X-HTTP-Method-Override", " patch")
    ∷ ("Content-Type", "application/offset+octet-stream")
    ∷ ("Upload-Offset", "2")
    ∷ []

abbrev body : Bytes
body = 3 ∷ 4 ∷ 5 ∷ []

abbrev pub c : Context
c = record { now = 0; uuid = uuid }

abbrev pub L : LockBackend
L = memory_backend 30 5 (record { now = 1; token = "t"; after = 2; others = λ h. h } ∷ [])

abbrev pub stored : Db
stored = record { rows = (uuid, started) ∷ []; files = (uuid, 1 ∷ 2 ∷ []) ∷ [] }

abbrev pub s : Site Db L.State
s = record { world = in_world stored; locks = []; last_cleanup = none }

abbrev pub u : Upload
u = to_upload uuid started

abbrev plan : PatchPlan
plan = record {
  expected_offset = 2;
  new_offset = 5;
  effective_length = 5;
  commit_length = none;
  expires_at = none;
}

gated : gate v "POST" (normalize_headers raw_headers) (length body) ≡ accept "PATCH"
unfolding gate override_method check_sizes normalize_headers lower strip upper Dict.get Dict.put
gated = refl

admitted : admit v "PATCH" path (normalize_headers raw_headers) ≡ accept tt
unfolding admit run_incoming_hook check_version normalize_headers lower Dict.get Dict.put
admitted = refl

routed : route v "PATCH" path ≡ patch uuid
unfolding route validate_upload_id uuid_rest hex_run dash is_hex
routed = refl

held : L.acquire uuid s.locks ≡ (some "t", (L.acquire uuid s.locks).1)
unfolding acquire attempt Dict.get
held = refl

found : get_upload stored uuid ≡ some u
unfolding get_upload Dict.get
found = refl

planned : plan_patch v c.now u (normalize_headers raw_headers) body ≡ accept plan
unfolding plan_patch plan_length plan_offset check_checksum normalize_headers lower Dict.get
    Dict.put int read_ids
planned = refl

covered : u.offset ≤ length (bytes_or_empty (read_file stored uuid))
unfolding read_file Dict.get
covered = omega arith

handle_request-appends_example :
    let s' = (handle_request S L v c "POST" path raw_headers body s).1 in
    (S.get_upload s'.world.store uuid ≡ some (extended u (length body) plan.effective_length))
    × (take (u.offset + length body) (bytes_or_empty (S.read_file s'.world.store uuid))
        ≡ take u.offset (bytes_or_empty (S.read_file s.world.store uuid)) ++ body)
    × ((j : String)
        → (uuid == j) ≡ false
        → (S.get_upload s'.world.store j ≡ S.get_upload s.world.store j)
          × (S.read_file s'.world.store j ≡ S.read_file s.world.store j))
    × (s'.locks ≡ L.release uuid "t" (L.acquire uuid s.locks).1)
handle_request-appends_example =
    handle_request-appends S (sqlite_storage-IsLawful file_path) L v c "POST" path raw_headers body
      s uuid "t" (L.acquire uuid s.locks).1 u plan refl refl gated admitted routed held found
      planned tt refl covered
