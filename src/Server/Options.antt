-- ===== src/Server/Options.antt =====
-- resumable_upload/server/handlers/options.py.
use resumable_upload.Prelude.{[], ◌∷◌, ◌++◌, if◌then◌else◌, ltb, join, str}
use resumable_upload.Server.{Server, Response, raw, tus_version}

unfoldable pub handle_options : Server → Response
handle_options v = record {
  status = 204;
  headers =
      (("Tus-Resumable", tus_version)
        ∷ ("Tus-Version", tus_version)
        ∷ ("Tus-Extension", join "," v.extensions)
        ∷ ("Tus-Checksum-Algorithm", join "," v.checksums)
        ∷ [])
      ++ (if ltb 0 v.max_size then ("Tus-Max-Size", str v.max_size) ∷ [] else []);
  body = raw [];
}
