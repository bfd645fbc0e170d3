-- ===== src/Client/Uploader/Delivers.antt =====
-- An upload from its opening to its end, over a network that may lose requests and answers.
use resumable_upload.Prelude.{
  ℕ, ◌+◌, ◌≤◌, ◌<◌, ◌≡◌, ◌∙◌, ap, String, false, Option, none, some, Bytes, length, take,
  length-take, arith,
}
use resumable_upload.Client.Outcome.{Outcome, done, raised, continue}
use resumable_upload.Client.Network.{Network}
use resumable_upload.Client.Contract.{IsTusServer}
use resumable_upload.Client.Stats.{new_stats}
use resumable_upload.Client.Uploader.{Config, Session, opened, get_offset, update_stats, start}
use resumable_upload.Client.Uploader.Chunks.{Reported, get_offset-Reported}
use resumable_upload.Client.Uploader.Uploads.{Finishes, upload_from-Finishes}
use resumable_upload.Client.Uploader.Upload.{stop_offset, upload}

module _ (N : Network) (c : Config) where
  -- The run of a client that opens an uploader on an upload and calls `upload`.
  abbrev pub run : ℕ → Option ℕ → N.State → Outcome (Option String) × Session N.State
  run fuel stop_at net = continue (λ _. upload N c fuel stop_at) (start N c net)

module _ (N : Network) (c : Config) (held : N.State → Bytes) (T : IsTusServer N c held)
    (direct : c.via_proxy ≡ false) (positive : 0 < c.chunk_size)
    (sized : c.file_size ≡ length c.file) where
  -- The uploader is opened at the end of what the server holds.
  abbrev pub Opens : ℕ → Outcome Unit × Session N.State → Type 0
  Opens k (done _, s) = (s.offset ≡ k) × (held s.net ≡ take k c.file)
  Opens k (raised e, s) = held s.net ≡ take k c.file

  opened-Opens :
      (k : ℕ) (now : Bytes) (p : Outcome ℕ × Session N.State)
      → now ≡ take k c.file
      → k ≤ length c.file
      → Reported N c held T direct 0 now p
      → Opens k (opened N c p)
  unfolding update_stats
  opened-Opens k now (done n, s) before within (counted, _, same) =
      (omega (arith, counted, ap length before, length-take {0} k c.file), same ∙ before)
  opened-Opens k now (raised e, s) before within (_, same) = same ∙ before

  pub start-Opens :
      (k : ℕ) (net : N.State)
      → held net ≡ take k c.file
      → k ≤ length c.file
      → Opens k (start N c net)
  unfolding start
  start-Opens k net before within =
      let s0 : Session N.State = record {
        offset = 0;
        length_deferred = false;
        stats = new_stats c.file_size;
        connected = false;
        net = net;
      } in
      opened-Opens k (held net) (get_offset N c s0) before within
        (get_offset-Reported N c held T direct s0)

  pub stop_within : (stop_at : Option ℕ) → stop_offset N c stop_at ≤ length c.file
  stop_within none = omega (arith, sized)
  stop_within (some n) = omega (arith, sized)

  run_opened :
      (k fuel : ℕ) (stop_at : Option ℕ) (p : Outcome Unit × Session N.State)
      → k ≤ stop_offset N c stop_at
      → stop_offset N c stop_at < k + fuel
      → Opens k p
      → Finishes N c held (stop_offset N c stop_at) (continue (λ _. upload N c fuel stop_at) p)
  unfolding upload
  run_opened k fuel stop_at (done _, s) low enough (at_k, h) =
      let within = stop_within stop_at in
      upload_from-Finishes N c held T direct positive (stop_offset N c stop_at) within fuel s
        (rw at_k h, omega (arith, at_k, low, within)) (omega (arith, at_k, low))
        (omega (arith, at_k, enough))
  run_opened k fuel stop_at (raised e, s) low enough h = (k, h)

  -- Over a network that may lose any request or answer: where the server holds the first `k` bytes
  -- of the file, and there is more fuel than bytes are left up to the stop, opening the uploader
  -- and `upload` end within the fuel; if they return, it is with the upload's URL, and the server
  -- holds the file exactly up to the stop; if they raise, the server holds a first part of the
  -- file.
  pub run-Finishes :
      (k fuel : ℕ) (stop_at : Option ℕ) (net : N.State)
      → held net ≡ take k c.file
      → k ≤ stop_offset N c stop_at
      → stop_offset N c stop_at < k + fuel
      → Finishes N c held (stop_offset N c stop_at) (run N c fuel stop_at net)
  run-Finishes k fuel stop_at net before low enough =
      run_opened k fuel stop_at (start N c net) low enough
        (start-Opens k net before (omega (arith, low, stop_within stop_at)))
