-- ===== src/Client/TusClient/Concatenation.antt =====
-- resumable_upload/client/concatenation.py: partial uploads, and the final one.
use resumable_upload.Prelude.{
  String, ◌<>◌, false, Option, none, some, List, [], ◌∷◌, ℕ, if◌then◌else◌, is_empty, join, length,
}
use resumable_upload.Prelude.Dict
use resumable_upload.Prelude.Dict.{Dict}
use resumable_upload.Client.Outcome.{value_error, Outcome, done, raised, Exec, throw, ◌>>=◌}
use resumable_upload.Client.Network.{Network}
use resumable_upload.Client.Protocol.{encode_metadata}
use resumable_upload.Client.TusClient.{
  TusClient, Source, Opened, open_source, uploader_config, State, request, create_reply,
  create_upload, open_uploader,
}
use resumable_upload.Client.TusClient.Files.{finished}
use resumable_upload.Client.Uploader.Upload.{upload}
use resumable_upload.Client.UrlStorage.{UrlStorage}

module _ (U : UrlStorage) (N : Network) (c : TusClient) where
  abbrev partial_opened : Outcome Opened → Dict String → ℕ → Exec (State U N c) (Option String)
  partial_opened (raised e) metadata fuel = throw e
  partial_opened (done f) metadata fuel =
      create_upload U N c metadata (record {
        file_size = length f.bytes;
        initial_data = none;
        extra_headers = ("Upload-Concat", "partial") ∷ [];
        defer_length = false;
      })
      >>= λ url. open_uploader U N c f.bytes url >>= λ t s.
          finished U N c url (upload N (uploader_config c f.bytes url) fuel none t) s

  unfoldable pub create_partial_upload :
      Source → Dict String → ℕ → Exec (State U N c) (Option String)
  unfolding create_upload open_uploader uploader_config upload
  create_partial_upload source metadata fuel = partial_opened (open_source source) metadata fuel

  abbrev final_with : List String → Option (List String) → Exec (State U N c) String
  final_with partial_urls none s = (raised value_error, s)
  final_with partial_urls (some entries) s =
      let base : Dict String =
        Dict.merge
          (("Tus-Resumable", "1.0.0") ∷ ("Upload-Concat", "final;" <> join " " partial_urls) ∷ [])
          c.headers in
      let headers : Dict String =
        if is_empty entries then base else Dict.put base "Upload-Metadata" (join "," entries) in
      let (reply, s') = request U N c "POST" c.url headers none s in (create_reply c reply, s')

  unfoldable pub create_final_upload : List String → Dict String → Exec (State U N c) String
  unfolding request encode_metadata join
  create_final_upload [] metadata = throw value_error
  create_final_upload (url ∷ urls) metadata =
      final_with (url ∷ urls) (encode_metadata c.b64encode metadata)
