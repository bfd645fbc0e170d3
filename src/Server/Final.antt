-- ===== src/Server/Final.antt =====
-- resumable_upload/server/handlers/create.py: POST with `Upload-Concat: final;<urls>`.
pub mod Limits
pub mod Safety
use resumable_upload.Prelude.{
  ℕ, ◌+◌, String, ◌<>◌, starts_with, not, ◌&&◌, Option, none, some, List, [], ◌∷◌, ◌++◌,
  if◌then◌else◌, is_empty, ltb, str, words, split_once, contains_text, text_drop, text_length,
}
use resumable_upload.Prelude.Dict.{Dict}
use resumable_upload.Exec
use resumable_upload.Exec.{
  Error, value_error, not_implemented, integrity_error, os_error, overflow_error, Result, ok, raise,
  Exec, pure, throw, gets, lift,
}
use resumable_upload.Headers.{validate_upload_id}
use resumable_upload.Storage.{Upload, Storage}
use resumable_upload.Server.{
  Server, World, Context, Response, HookCall, raw, tus_version, error_response, build_location,
  on_store, count, called,
}
use resumable_upload.Server.Checked.{Checked, accept, refuse, refuse_if, ◌>>=◌, ◌>>◌}
use resumable_upload.Server.Patch.Handler.{expiry_header}
use resumable_upload.Server.Create.{plan_metadata, expiry_time}

-- _CreateFinalPlan
pub record CreateFinalPlan : Type 0 where
  pub final_id : String
  pub partial_ids : List String
  pub metadata : Dict String
  pub expires_at : Option ℕ

-- The path of an absolute URL, or the URL itself.
abbrev pub path_of : Server → String → String
path_of v raw_url = if contains_text "://" raw_url then v.library.url_path raw_url else raw_url

-- One URL of the list, already free of blanks.
unfoldable pub partial_id : Server → String → Checked String
unfolding validate_upload_id
partial_id v raw_url = do
  let prefix = v.base_path <> "/"
  let path = path_of v raw_url
  refuse_if (not (starts_with path prefix)) 400
      ("Upload-Concat references unknown upload: " <> raw_url)
  let upload_id = text_drop (text_length prefix) path
  refuse_if (not (validate_upload_id upload_id)) 400 "Invalid upload ID in Upload-Concat"
  accept upload_id

unfoldable pub parse_partial_ids : Server → List String → Checked (List String)
unfolding partial_id
parse_partial_ids v [] = accept []
parse_partial_ids v (url ∷ urls) =
    let rest = parse_partial_ids v urls in
    partial_id v url >>= λ id. rest >>= λ ids. accept (id ∷ ids)

abbrev urls_part : Option (String × String) → Checked String
urls_part none = refuse (error_response 400 "Invalid Upload-Concat header")
urls_part (some (_, urls)) = accept urls

-- _plan_create_final
unfoldable pub plan_create_final : Server → Context → String → Dict String → Checked CreateFinalPlan
unfolding parse_partial_ids plan_metadata words
plan_create_final v c concat_header headers = do
  urls ← urls_part (split_once b';' concat_header)
  ids ← parse_partial_ids v (words urls)
  refuse_if (is_empty ids) 400 "Upload-Concat final requires partial URLs"
  metadata ← plan_metadata v headers
  accept (record {
    final_id = c.uuid;
    partial_ids = ids;
    metadata = metadata;
    expires_at = expiry_time v c.now;
  })

abbrev length_headers : Option ℕ → Dict String
length_headers none = []
length_headers (some n) = ("Upload-Offset", str n) ∷ ("Upload-Length", str n) ∷ []

-- _create_final_response
unfoldable pub create_final_response : Server → CreateFinalPlan → Option ℕ → Dict String → Response
create_final_response v plan total headers = record {
  status = 201;
  headers =
      (("Tus-Resumable", tus_version) ∷ ("Location", build_location v plan.final_id headers) ∷ [])
      ++ length_headers total
      ++ expiry_header v plan.expires_at;
  body = raw [];
}

module _ (S : Storage) (v : Server) where
  -- The sum of the partials' declared lengths; a deferred one refuses the request.
  abbrev add_declared : Option Upload → Checked ℕ → Checked ℕ
  add_declared none rest = rest
  add_declared (some p) rest = elim p.upload_length [
    | none ↦
        refuse (
          error_response 400 "Cannot enforce Tus-Max-Size on a final over deferred-length partials")
    | some n ↦ rest >>= λ total. accept (n + total)
  ]

  unfoldable pub declared_total : S.State → List String → Checked ℕ
  declared_total s [] = accept 0
  declared_total s (pid ∷ pids) = add_declared (S.get_upload s pid) (declared_total s pids)

  unfoldable pub check_declared : S.State → List String → Checked Unit
  unfolding declared_total
  check_declared s ids =
      if ltb 0 v.max_size
      then (declared_total s ids >>= λ declared.
          refuse_if (ltb v.max_size declared) 413 "Concatenated upload exceeds maximum size")
      else accept tt

  -- A final that was assembled in the request.
  unfoldable pub announce : CreateFinalPlan → ℕ → Dict String → Exec (World S.State) Response
  announce plan total headers = Exec.◌>>◌ (count "tusd_uploads_finished_total" 1 []) (
      Exec.◌>>◌
        (elim v.on_upload_complete [
          | none ↦ pure tt
          | some hook ↦ called (HookCall.complete plan.final_id plan.metadata)
        ])
        (pure (create_final_response v plan (some total) headers)))

  abbrev concatenated :
      CreateFinalPlan → Dict String → Result (Option ℕ) → Exec (World S.State) Response
  concatenated plan headers (raise (value_error e)) = pure (error_response 400 e)
  concatenated plan headers (raise (not_implemented e)) = pure (error_response 501 e)
  concatenated plan headers (raise (integrity_error e)) = throw (integrity_error e)
  concatenated plan headers (raise (os_error e)) = throw (os_error e)
  concatenated plan headers (raise (overflow_error e)) = throw (overflow_error e)
  concatenated plan headers (ok none) = pure (create_final_response v plan none headers)
  concatenated plan headers (ok (some total)) =
      if ltb 0 v.max_size && ltb v.max_size total
      then Exec.◌>>◌ (on_store (S.delete_upload plan.final_id))
          (pure (error_response 413 "Concatenated upload exceeds maximum size"))
      else announce plan total headers

  unfoldable pub concatenate : CreateFinalPlan → Dict String → Exec (World S.State) Response
  unfolding announce
  concatenate plan headers w =
      let (r, w') =
        on_store
          (S.concatenate_uploads plan.final_id plan.partial_ids plan.metadata plan.expires_at
            S.supports_unfinished_concat)
          w in
      concatenated plan headers r w'

  abbrev if_fits : CreateFinalPlan → Dict String → Checked Unit → Exec (World S.State) Response
  if_fits plan headers (refuse r) = pure r
  if_fits plan headers (accept _) = concatenate plan headers

  abbrev run_final : Dict String → Checked CreateFinalPlan → Exec (World S.State) Response
  run_final headers (refuse r) w = (ok r, w)
  run_final headers (accept plan) w =
      if_fits plan headers (check_declared w.store plan.partial_ids) w

  unfoldable pub handle_create_final :
      Context → String → Dict String → Exec (World S.State) Response
  unfolding plan_create_final check_declared concatenate
  handle_create_final c concat_header headers =
      run_final headers (plan_create_final v c concat_header headers)
