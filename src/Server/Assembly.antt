-- ===== src/Server/Assembly.antt =====
-- resumable_upload/server/handlers/patch.py: the assembly of pending finals.
use resumable_upload.Prelude.{ℕ, String, Option, none, some, List, [], ◌∷◌, if◌then◌else◌, ltb}
use resumable_upload.Prelude.Dict.{Dict}
use resumable_upload.Exec.{
  not_implemented, value_error, integrity_error, os_error, overflow_error, Result, ok, raise, Exec,
  pure, throw, gets, ◌>>=◌, ◌>>◌,
}
use resumable_upload.Storage.{Upload, Storage}
use resumable_upload.Server.{Server, World, HookCall, count, called, on_store}

abbrev pub metadata_of : Option Upload → Dict String
metadata_of none = []
metadata_of (some u) = u.metadata

-- _assembly_max_total
abbrev pub assembly_max_total : Server → Option ℕ
assembly_max_total v = if ltb 0 v.max_size then some v.max_size else none

module _ (S : Storage) (v : Server) where
  -- _fire_final_complete; the hook's result is not used.
  unfoldable pub fire_final_complete : String → Exec (World S.State) Unit
  fire_final_complete final_id = do
    count "tusd_uploads_finished_total" 1 []
    elim v.on_upload_complete [
      | none ↦ pure tt
      | some hook ↦ do
        metadata ← gets (λ w. metadata_of (S.get_upload w.store final_id))
        called (HookCall.complete final_id metadata)
    ]

  abbrev assembled : String → Result (Option ℕ) → Exec (World S.State) (Option ℕ)
  assembled final_id (raise (not_implemented _)) = pure none
  assembled final_id (raise (value_error e)) = throw (value_error e)
  assembled final_id (raise (integrity_error e)) = throw (integrity_error e)
  assembled final_id (raise (os_error e)) = throw (os_error e)
  assembled final_id (raise (overflow_error e)) = throw (overflow_error e)
  assembled final_id (ok none) = pure none
  assembled final_id (ok (some total)) = do fire_final_complete final_id; pure (some total)

  unfoldable pub try_assemble_one : String → Exec (World S.State) (Option ℕ)
  unfolding fire_final_complete
  try_assemble_one final_id w =
      let (r, w') = on_store (S.try_assemble_final final_id (assembly_max_total v)) w in
      assembled final_id r w'

  unfoldable pub assemble_each : List String → Exec (World S.State) Unit
  unfolding try_assemble_one
  assemble_each [] = pure tt
  assemble_each (final_id ∷ ids) = try_assemble_one final_id >> assemble_each ids

  abbrev assemble_pending : Result (List String) → Exec (World S.State) Unit
  assemble_pending (raise (not_implemented _)) = pure tt
  assemble_pending (raise (value_error e)) = throw (value_error e)
  assemble_pending (raise (integrity_error e)) = throw (integrity_error e)
  assemble_pending (raise (os_error e)) = throw (os_error e)
  assemble_pending (raise (overflow_error e)) = throw (overflow_error e)
  assemble_pending (ok ids) = assemble_each ids

  unfoldable pub assemble_pending_finals : String → Exec (World S.State) Unit
  unfolding assemble_each
  assemble_pending_finals partial_id w =
      assemble_pending (S.find_pending_finals_for_partial w.store partial_id) w
