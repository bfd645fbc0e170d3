-- ===== src/Server/Delete/Protects.antt =====
-- DELETE of a partial upload, over the SQLite back end, while a final still waits for it.
use resumable_upload.Prelude.{◌≡◌, refl, String, true, false, none, some, List, [], ◌∷◌, join}
use resumable_upload.Prelude.Dict
use resumable_upload.Prelude.Dict.{Dict}
use resumable_upload.Exec.{ok}
use resumable_upload.Storage.{Upload, Storage}
use resumable_upload.Sqlite.{Row, Db}
use resumable_upload.Sqlite.Backend.{sqlite_storage}
use resumable_upload.Sqlite.Pending.{is_in, find_pending_finals_for_partial_complete}
use resumable_upload.Server.{Server, World, error_response}
use resumable_upload.Server.Delete.{check_terminate_veto, check_pending_final_refs, handle_delete}

refs_pending :
    (S : Storage) (v : Server) (pid id : String) (finals : List String) (w : World S.State)
    → S.find_pending_finals_for_partial w.store pid ≡ ok finals
    → is_in id finals ≡ true
    → check_pending_final_refs S v pid true w ≡ (
      ok (some (error_response 409 "Partial upload is referenced by an unfinished concatenation")),
      w,
    )
unfolding check_pending_final_refs
refs_pending S v pid id [] w found here = cc here
refs_pending S v pid id (f ∷ finals) w found here = rw found refl

-- Over SQLite, on a server that allows termination and has no on_before_terminate: while the row of
-- some final is not completed and its list of partials holds the id of a partial upload, wherever
-- in the list, DELETE of that partial upload answers 409 and changes nothing at all.
pub handle_delete-protects :
    (path : String → String) (v : Server) (w : World Db) (pid id : String) (u : Upload) (r : Row)
    (ids : List String)
    → v.disable_termination ≡ false
    → v.on_before_terminate ≡ none
    → (sqlite_storage path).get_upload w.store pid ≡ some u
    → u.is_partial ≡ true
    → Dict.get w.store.rows id ≡ some r
    → r.completed ≡ false
    → r.concat_partial_ids ≡ some (join " " ids)
    → is_in pid ids ≡ true
    → handle_delete (sqlite_storage path) v pid w
      ≡ (ok (error_response 409 "Partial upload is referenced by an unfinished concatenation"), w)
unfolding handle_delete check_terminate_veto
handle_delete-protects path v w pid id u r ids enabled no_veto found partial there unfinished listed
      here =
    let (finals, pending, among) =
      find_pending_finals_for_partial_complete w.store pid id r ids there unfinished listed here in
    rw
      (
        enabled,
        found,
        no_veto,
        partial,
        refs_pending (sqlite_storage path) v pid id finals w pending among,
      )
      refl
