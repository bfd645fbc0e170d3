-- ===== src/Tests/Reading.antt =====
-- HEAD, GET and DELETE on the upload of the PATCH tests, before and after the PATCH.
use resumable_upload.Prelude.{
  ◌+◌, ◌≡◌, refl, String, ◌==◌, false, none, some, [], ◌∷◌, ◌++◌, Bytes, length, take, str, pos,
}
use resumable_upload.Prelude.Dict
use resumable_upload.Prelude.Dict.{Dict}
use resumable_upload.Exec.{Error, ok, raise}
use resumable_upload.Storage.Contract.{bytes_or_empty}
use resumable_upload.Server.{
  Server, Response, HookCall, returned, count_in, tus_resumable, raw, stream,
}
use resumable_upload.Server.Delete.{handle_delete}
use resumable_upload.Server.Delete.Deletes.{handle_delete-removes}
use resumable_upload.Server.Download.{handle_get_download}
use resumable_upload.Server.Download.Serves.{handle_get_download-handle_patch}
use resumable_upload.Server.Head.{handle_head, is_pending_final}
use resumable_upload.Client.Protocol.{UploadInfo, parse_upload_info}
use resumable_upload.EndToEnd.Reports.{parse_upload_info-handle_head}
use resumable_upload.Sqlite.{read_ids}
use resumable_upload.Sqlite.Lawful.{sqlite_storage-IsLawful}
use resumable_upload.Server.Patch.Handler.{handle_patch}
use resumable_upload.Tests.Data.{v, S, file_path}
use resumable_upload.Tests.Patching.{w, u, body, plan, now, headers, id, found, planned, covered}

pending : is_pending_final (some u) ≡ false
unfolding read_ids
pending = refl

handle_get_download-handle_patch_example :
    (r : Response) × (bytes : Bytes) × ((handle_get_download S v now id
        (handle_patch S v now id headers body w).1).0
      ≡ ok r)
    × (r.status ≡ 200)
    × (r.body ≡ stream bytes)
    × (take (u.offset + length body) bytes
        ≡ take u.offset (bytes_or_empty (S.read_file w.store id)) ++ body)
    × (Dict.get r.headers "Content-Length" ≡ some (str plan.effective_length))
handle_get_download-handle_patch_example =
    handle_get_download-handle_patch S (sqlite_storage-IsLawful file_path) v now now id headers body
      w u plan found planned tt refl refl covered refl refl

-- A server with on_upload_terminate.
abbrev watched : Server
watched = record v { on_upload_terminate = some (λ _. returned tt) }

handle_delete-removes_example :
    let (r, w') = handle_delete S watched id w in
    (r ≡ ok (record { status = 204; headers = tus_resumable; body = raw [] }))
    × (S.get_upload w'.store id ≡ none)
    × ((e : Error) × (S.read_file w'.store id ≡ raise e))
    × (w'.metrics ≡ count_in w.metrics "tusd_uploads_terminated_total" 1 [])
    × (w'.calls ≡ w.calls ++ HookCall.terminate id ∷ [])
    × ((j : String)
        → (id == j) ≡ false
        → (S.get_upload w'.store j ≡ S.get_upload w.store j)
          × (S.read_file w'.store j ≡ S.read_file w.store j))
handle_delete-removes_example =
    handle_delete-removes S (sqlite_storage-IsLawful file_path) watched id w u refl refl found
      (λ partial. cc partial)

parse_upload_info-handle_head_example :
    (r : Response) × (info : UploadInfo) × (handle_head S v now id w ≡ (ok r, w))
    × (parse_upload_info
          (λ t. some t)
          (Dict.get r.headers "Upload-Offset")
          (Dict.get r.headers "Upload-Length")
          (Dict.get r.headers "Upload-Metadata")
        ≡ some info)
    × (info.offset ≡ pos 2)
    × (info.length ≡ pos 5)
    × (info.complete ≡ false)
parse_upload_info-handle_head_example =
    parse_upload_info-handle_head S v now id w u 5 (λ t. some t) found pending refl refl
