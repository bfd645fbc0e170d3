-- ===== src/Sqlite/Backend.antt =====
-- `SQLiteStorage` as a storage back end.
use resumable_upload.Prelude.{String, true, [], ◌∷◌}
use resumable_upload.Prelude.Dict.{Dict}
use resumable_upload.Storage.{Storage}
use resumable_upload.Sqlite.{
  Db, create_upload, set_upload_length, get_upload, update_offset, update_offset_atomic,
  complete_upload, delete_upload, write_chunk, read_file,
}
use resumable_upload.Sqlite.Concat.{
  concatenate_uploads, find_pending_finals_for_partial, try_assemble_final, cleanup_expired_uploads,
}

module _ (get_file_path : String → String) where
  abbrev pub get_file_info : String → Dict String
  get_file_info id = ("upload_id", id) ∷ ("file_path", get_file_path id) ∷ []

  abbrev pub sqlite_storage : Storage
  sqlite_storage = record {
    State = Db;
    supports_unfinished_concat = true;
    create_upload = create_upload;
    set_upload_length = set_upload_length;
    get_upload = get_upload;
    update_offset = update_offset;
    update_offset_atomic = update_offset_atomic;
    complete_upload = complete_upload;
    delete_upload = delete_upload;
    write_chunk = write_chunk;
    read_file = read_file;
    get_file_info = get_file_info;
    cleanup_expired_uploads = cleanup_expired_uploads;
    concatenate_uploads = concatenate_uploads;
    find_pending_finals_for_partial = find_pending_finals_for_partial;
    try_assemble_final = try_assemble_final;
  }
