-- ===== src/Server/Head.antt =====
-- resumable_upload/server/handlers/head.py.
pub mod Reports
pub mod Metadata
use resumable_upload.Prelude.{
  ℕ, String, ◌<>◌, ◌==◌, Bool, true, false, not, ◌&&◌, Option, none, some, List, [], ◌∷◌, ◌++◌,
  if◌then◌else◌, is_empty, is_some, join, str,
}
use resumable_upload.Prelude.Dict.{Dict}
use resumable_upload.Exec.{Result, ok, raise, Exec, pure, gets, ◌>>=◌, ◌>>◌}
use resumable_upload.Storage.{Upload, Storage}
use resumable_upload.Server.{Server, World, Response, raw, tus_version, error_response, has_expired}
use resumable_upload.Server.Assembly.{try_assemble_one}
use resumable_upload.Server.Patch.Handler.{expiry_header}

-- _is_pending_final
abbrev pub is_pending_final : Option Upload → Bool
is_pending_final none = false
is_pending_final (some u) = not (is_empty u.concat_partial_ids) && not u.completed

abbrev offset_header : Upload → Dict String
offset_header u = if is_pending_final (some u) then [] else ("Upload-Offset", str u.offset) ∷ []

abbrev length_header : Upload → Dict String
length_header u = elim u.upload_length [
  | none ↦ if is_empty u.concat_partial_ids then ("Upload-Defer-Length", "1") ∷ [] else []
  | some n ↦ ("Upload-Length", str n) ∷ []
]

module _ (v : Server) where
  unfoldable pub encode_entries : Dict String → List String
  encode_entries [] = []
  encode_entries ((key, value) ∷ metadata) =
      (key <> " " <> v.library.b64encode_text value) ∷ encode_entries metadata

  abbrev metadata_header : Dict String → Dict String
  metadata_header metadata =
      if is_empty metadata then [] else ("Upload-Metadata", join "," (encode_entries metadata)) ∷ []

  urls : List String → List String
  urls [] = []
  urls (pid ∷ pids) = (v.base_path <> "/" <> pid) ∷ urls pids

  abbrev concat_header : Upload → Dict String
  concat_header u =
      if u.is_partial
      then ("Upload-Concat", "partial") ∷ []
      else if is_empty u.concat_partial_ids
      then []
      else ("Upload-Concat", "final;" <> join " " (urls u.concat_partial_ids)) ∷ []

  unfoldable pub head_headers : Upload → Dict String
  unfolding encode_entries urls
  head_headers u =
      (("Tus-Resumable", tus_version) ∷ ("Cache-Control", "no-store") ∷ [])
      ++ offset_header u
      ++ length_header u
      ++ expiry_header v u.expires_at
      ++ metadata_header u.metadata
      ++ concat_header u

  -- _build_head_response
  unfoldable pub build_head_response : ℕ → Option Upload → Response
  unfolding head_headers
  build_head_response now none = error_response 404 "Upload not found"
  build_head_response now (some u) =
      if has_expired u.expires_at now
      then error_response 410 "Upload has expired"
      else record { status = 200; headers = head_headers u; body = raw [] }

module _ (S : Storage) (v : Server) where
  -- The upload to report after the attempt to assemble it.
  abbrev after_attempt : String → Option Upload → Option ℕ → Exec (World S.State) (Option Upload)
  after_attempt id upload (some _) = gets (λ w. S.get_upload w.store id)
  after_attempt id upload none =
      gets (λ w. if is_some (S.get_upload w.store id) then upload else none)

  abbrev head_found : ℕ → String → Option Upload → Exec (World S.State) Response
  head_found now id upload =
      if is_pending_final upload
      then (try_assemble_one S v id >>= after_attempt id upload >>= λ u.
          pure (build_head_response v now u))
      else pure (build_head_response v now upload)

  unfoldable pub handle_head : ℕ → String → Exec (World S.State) Response
  unfolding build_head_response try_assemble_one
  handle_head now id w = head_found now id (S.get_upload w.store id) w
