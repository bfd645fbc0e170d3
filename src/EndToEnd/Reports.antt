-- ===== src/EndToEnd/Reports.antt =====
-- The client's `get_upload_info` of what the server's HEAD reports.
use resumable_upload.Prelude.{ℕ, ◌≡◌, refl, String, false, Option, some, leb, pos}
use resumable_upload.Prelude.Dict
use resumable_upload.Prelude.Text.Numbers.{int-str, str-not_empty}
use resumable_upload.Exec.{ok}
use resumable_upload.Storage.{Upload, Storage}
use resumable_upload.Server.{Server, World, Response, has_expired}
use resumable_upload.Server.Head.{is_pending_final, handle_head}
use resumable_upload.Server.Head.Reports.{handle_head-reports}
use resumable_upload.Client.Protocol.{UploadInfo, parse_upload_info, parse_upload_metadata}

-- HEAD of an upload of declared length that has not expired and is no pending final is answered
-- with headers that the client reads as the stored offset and the declared length, and as complete
-- exactly when the offset has reached the length.
pub parse_upload_info-handle_head :
    (S : Storage) (v : Server) (now : ℕ) (id : String) (w : World S.State) (u : Upload) (total : ℕ)
    (b64decode : String → Option String)
    → S.get_upload w.store id ≡ some u
    → is_pending_final (some u) ≡ false
    → has_expired u.expires_at now ≡ false
    → u.upload_length ≡ some total
    → (r : Response) × (info : UploadInfo) × (handle_head S v now id w ≡ (ok r, w))
      × (parse_upload_info b64decode
            (Dict.get r.headers "Upload-Offset")
            (Dict.get r.headers "Upload-Length")
            (Dict.get r.headers "Upload-Metadata")
          ≡ some info)
      × (info.offset ≡ pos u.offset)
      × (info.length ≡ pos total)
      × (info.complete ≡ leb total u.offset)
unfolding parse_upload_info
parse_upload_info-handle_head S v now id w u total b64decode found ready live declared =
    let (r, answer, _, offset, length) = (handle_head-reports S v now id w u found ready).1 live in
    (
      r,
      record {
        offset = pos u.offset;
        length = pos total;
        complete = leb total u.offset;
        metadata = parse_upload_metadata b64decode (Dict.get r.headers "Upload-Metadata");
      },
      answer,
      rw (offset, length total declared, str-not_empty u.offset, int-str u.offset, int-str total)
          refl,
      refl,
      refl,
      refl,
    )
