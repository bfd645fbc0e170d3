-- ===== src/Client/TusClient/Queries.antt =====
-- resumable_upload/client/protocol.py: the client's questions to the server. Then `create_uploader`
-- of client/client.py.
use resumable_upload.Prelude.{String, false, Option, none, some, [], ◌∷◌, Bytes, length}
use resumable_upload.Prelude.Dict
use resumable_upload.Prelude.Dict.{Dict}
use resumable_upload.Client.Network.{Reply, response, http_error, url_error, Network}
use resumable_upload.Client.Outcome.{
  communication, os_error, value_error, Outcome, done, raised, Exec, pure, throw, ◌>>=◌, ◌>>◌,
}
use resumable_upload.Client.Protocol.{
  UploadInfo, ServerInfo, parse_upload_metadata, parse_upload_info, parse_server_info,
}
use resumable_upload.Client.TusClient.{
  TusClient, Source, no_source, missing_file, path, stream, Opened, open_source, State, open_url,
  request, create_upload, open_uploader, announce, truthy, with_filename,
}
use resumable_upload.Client.Uploader.{Session}
use resumable_upload.Client.UrlStorage.{UrlStorage}

-- `none` is a ValueError.
abbrev or_value_error : {A : Type 0} → Option A → Outcome A
or_value_error none = raised value_error
or_value_error (some a) = done a

-- Where no file is given, `create_uploader` raises FileNotFoundError.
abbrev found_source : Source → Outcome Opened
found_source no_source = raised os_error
found_source missing_file = raised os_error
found_source (path name bytes) = open_source (path name bytes)
found_source (stream bytes) = open_source (stream bytes)

module _ (U : UrlStorage) (N : Network) (c : TusClient) where
  abbrev metadata_reply : Reply → Outcome (Dict String)
  metadata_reply (response status headers) =
      done (parse_upload_metadata c.b64decode (Dict.get headers "Upload-Metadata"))
  metadata_reply (http_error code) = raised (communication none)
  metadata_reply url_error = raised (communication none)

  abbrev ask : String → State U N c → Reply × State U N c
  ask upload_url s =
      request U N c "HEAD" upload_url (Dict.merge (("Tus-Resumable", "1.0.0") ∷ []) c.headers) none
        s

  unfoldable pub get_metadata : String → Exec (State U N c) (Dict String)
  unfolding request parse_upload_metadata
  get_metadata upload_url s = let (reply, s') = ask upload_url s in (metadata_reply reply, s')

  abbrev info_reply : Reply → Outcome UploadInfo
  info_reply (response status headers) = or_value_error (
      parse_upload_info c.b64decode (Dict.get headers "Upload-Offset")
        (Dict.get headers "Upload-Length") (Dict.get headers "Upload-Metadata"))
  info_reply (http_error code) = raised (communication (some code))
  info_reply url_error = raised (communication none)

  unfoldable pub get_upload_info : String → Exec (State U N c) UploadInfo
  unfolding request parse_upload_info
  get_upload_info upload_url s = let (reply, s') = ask upload_url s in (info_reply reply, s')

  abbrev server_reply : Reply → Outcome ServerInfo
  server_reply (response status headers) = or_value_error (
      parse_server_info (Dict.get headers "Tus-Version") (Dict.get headers "Tus-Extension")
        (Dict.get headers "Tus-Max-Size") "1.0.0")
  server_reply (http_error code) = raised (communication none)
  server_reply url_error = raised (communication none)

  -- OPTIONS goes without the client's headers and without a request id.
  unfoldable pub get_server_info : Exec (State U N c) ServerInfo
  unfolding parse_server_info
  get_server_info s =
      let (reply, s') = open_url U N c "OPTIONS" c.url [] none s in (server_reply reply, s')

  -- The URL that is given, or that of a new upload, which is announced.
  abbrev given_or_new : Option String → Dict String → Bytes → Exec (State U N c) String
  given_or_new (some url) metadata file = pure url
  given_or_new none metadata file =
      create_upload U N c metadata (record {
        file_size = length file;
        initial_data = none;
        extra_headers = [];
        defer_length = false;
      })
      >>= λ url. announce U N c url >> pure url

  abbrev uploader_for :
      Outcome Opened → Option String → Dict String → Exec (State U N c) (Session N.State)
  uploader_for (raised e) upload_url metadata = throw e
  uploader_for (done f) upload_url metadata =
      given_or_new (truthy upload_url) (with_filename f.filename metadata) f.bytes
      >>= open_uploader U N c f.bytes

  -- `create_uploader`, with the client's size of a chunk.
  unfoldable pub create_uploader :
      Source → Option String → Dict String → Exec (State U N c) (Session N.State)
  unfolding create_upload open_uploader
  create_uploader source upload_url metadata =
      uploader_for (found_source source) upload_url metadata
