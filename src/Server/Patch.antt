-- ===== src/Server/Patch.antt =====
-- resumable_upload/server/handlers/patch.py: the PATCH handler.
pub mod Handler
pub mod Accepted
pub mod Writes
pub mod Finish
pub mod Appends
pub mod Replies
pub mod Sound
pub mod Stops
pub mod Refused
use resumable_upload.Prelude.{
  ℕ, ◌+◌, String, ◌<>◌, ◌==◌, Bool, true, false, not, ◌&&◌, ◌||◌, Option, none, some, List, [], ◌∷◌,
  ◌++◌, if◌then◌else◌, is_some, is_empty, or_default, ltb, leb, eqb, Bytes, length, ℤ, pos, negsuc,
  int, str, split_once,
}
use resumable_upload.Prelude.Dict
use resumable_upload.Prelude.Dict.{Dict}
use resumable_upload.Storage.{Upload, Storage}
use resumable_upload.Checksum.{is_supported, compute}
use resumable_upload.Server.{Server, Context, Response, nonempty, has_expired, error_response}
use resumable_upload.Server.Checked.{Checked, accept, refuse, refuse_if, ◌>>=◌, ◌>>◌}

-- _PatchPlan
pub record PatchPlan : Type 0 where
  pub expected_offset : ℕ
  pub new_offset : ℕ
  pub effective_length : ℕ
  pub commit_length : Option ℕ
  pub expires_at : Option ℕ

-- The length that a deferred upload commits, from the parsed header.
abbrev committed_length : Server → Option ℤ → Checked (Option ℕ × ℕ)
committed_length v none = refuse (error_response 400 "Invalid Upload-Length header")
committed_length v (some (negsuc _)) =
    refuse (error_response 400 "Upload-Length must not be negative")
committed_length v (some (pos n)) = do
  refuse_if (ltb 0 v.max_size && ltb v.max_size n) 413 "Upload exceeds maximum size"
  accept (some n, n)

abbrev deferred_length : Server → Option String → Checked (Option ℕ × ℕ)
deferred_length v none =
    refuse (error_response 400 "Upload-Length header required for deferred-length PATCH")
deferred_length v (some t) = committed_length v (int t)

abbrev unchanged_length : ℕ → Option ℤ → Checked (Option ℕ × ℕ)
unchanged_length n none = refuse (error_response 400 "Invalid Upload-Length header")
unchanged_length n (some (negsuc _)) =
    refuse (error_response 400 "Upload-Length already committed and cannot be changed")
unchanged_length n (some (pos m)) = do
  refuse_if (not (eqb m n)) 400 "Upload-Length already committed and cannot be changed"
  accept (none, n)

abbrev resent_length : ℕ → Option String → Checked (Option ℕ × ℕ)
resent_length n none = accept (none, n)
resent_length n (some t) = unchanged_length n (int t)

-- The length to commit, if any, and the length that holds for this request.
unfoldable pub plan_length : Server → Option ℕ → Dict String → Checked (Option ℕ × ℕ)
plan_length v none headers = deferred_length v (nonempty (Dict.get headers "upload-length"))
plan_length v (some n) headers = resent_length n (Dict.get headers "upload-length")

abbrev matching_offset : ℕ → Option ℤ → Checked ℕ
matching_offset offset none = refuse (error_response 400 "Invalid Upload-Offset header")
matching_offset offset (some (negsuc _)) =
    refuse (error_response 400 "Upload-Offset must not be negative")
matching_offset offset (some (pos n)) = do
  refuse_if (not (eqb n offset)) 409 "Upload-Offset mismatch"
  accept n

abbrev given_offset : ℕ → Option String → Checked ℕ
given_offset offset none = refuse (error_response 400 "Missing Upload-Offset header")
given_offset offset (some t) = matching_offset offset (int t)

unfoldable pub plan_offset : ℕ → Dict String → Checked ℕ
plan_offset offset headers = given_offset offset (nonempty (Dict.get headers "upload-offset"))

abbrev compare_digest : Server → String → Bytes → Option String → Checked Unit
compare_digest v algo body none = refuse (error_response 400 "Invalid Upload-Checksum header")
compare_digest v algo body (some provided) =
    refuse_if (not (compute v.library.hexdigest algo body == provided)) 460 "Checksum mismatch"

abbrev checksum_parts : Server → Bytes → Option (String × String) → Checked Unit
checksum_parts v body none = refuse (error_response 400 "Invalid Upload-Checksum header")
checksum_parts v body (some (algo, checksum)) = do
  refuse_if (not (is_supported v.checksums algo)) 400 ("Unsupported checksum algorithm: " <> algo)
  compare_digest v algo body (v.library.b64decode_hex checksum)

abbrev given_checksum : Server → Bytes → Option String → Checked Unit
given_checksum v body none = accept tt
given_checksum v body (some t) = checksum_parts v body (split_once b' ' t)

unfoldable pub check_checksum : Server → Dict String → Bytes → Checked Unit
check_checksum v headers body =
    given_checksum v body (nonempty (Dict.get headers "upload-checksum"))

-- _plan_patch
unfoldable pub plan_patch : Server → ℕ → Upload → Dict String → Bytes → Checked PatchPlan
unfolding plan_length plan_offset check_checksum
plan_patch v now upload headers body = do
  refuse_if (has_expired upload.expires_at now) 410 "Upload has expired"
  refuse_if upload.completed 403 "Upload already completed"
  refuse_if (not (is_empty upload.concat_partial_ids)) 403
      "Cannot PATCH a final (concatenated) upload"
  refuse_if
      (not (or_default (Dict.get headers "content-type") "" == "application/offset+octet-stream"))
      415 "Invalid Content-Type"
  lengths ← plan_length v upload.upload_length headers
  offset ← plan_offset upload.offset headers
  check_checksum v headers body
  let new_offset = offset + length body
  refuse_if (ltb lengths.1 new_offset) 400 "Chunk would exceed declared upload length"
  refuse_if (ltb 0 v.max_chunk_size && ltb v.max_chunk_size (length body)) 413
      "Chunk exceeds maximum chunk size"
  accept (record {
    expected_offset = offset;
    new_offset = new_offset;
    effective_length = lengths.1;
    commit_length = lengths.0;
    expires_at = upload.expires_at;
  })
