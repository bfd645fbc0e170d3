-- ===== src/Client/Uploader/Completes.antt =====
-- Over a network that loses nothing, and with a server that accepts what continues the file, an
-- upload is completed.
use resumable_upload.Prelude.{
  ℕ, zero, suc, ◌+◌, ◌≤◌, ◌<◌, ◌≡◌, refl, inl, inr, String, false, Option, none, some, Bytes,
  length, take, int, ltb, arith, Bool-cases,
}
use resumable_upload.Prelude.Dict
use resumable_upload.Prelude.Dict.{Dict}
use resumable_upload.Client.Outcome.{Outcome, done, raised, continue}
use resumable_upload.Client.Network.{
  Wire, answered, stale, broken, Reply, response, http_error, url_error, Network,
}
use resumable_upload.Client.Contract.{HeadWire, IsTusServer, SaysLength, IsReliable}
use resumable_upload.Client.Stats.{new_stats}
use resumable_upload.Client.Uploader.{
  Config, Session, is_one, natural, with_request_id, head_headers, head_request, send, draw_id,
  head_reply, get_offset, update_stats, opened, start,
}
use resumable_upload.Client.Uploader.Chunks.{draw_id-keeps}
use resumable_upload.Client.Uploader.Delivers.{run, Opens, start-Opens, stop_within}
use resumable_upload.Client.Uploader.Returns.{draw_id-Good, Works, upload_next-Works}
use resumable_upload.Client.Uploader.Transport.{Exchanged, send-Replied}
use resumable_upload.Client.Uploader.Upload.{
  upload_next, commit_length, stop_offset, then_url, upload_from, upload,
}
use resumable_upload.Client.Uploader.Uploads.{Synced, Moved, upload_next-Moved}

-- What a reply to HEAD says of an upload whose length is known.
module _ (State : Type 0) (Good : State → Type 0) where
  abbrev Known : Reply → State → Type 0
  Known (response status headers) net =
      Good net
      × (is_one (Dict.get headers "Upload-Defer-Length") ≡ false)
      × ((t : String) × (n : ℕ) × (Dict.get headers "Upload-Offset" ≡ some t)
          × (natural (int t) ≡ some n))
  Known (http_error code) net = ⊥
  Known url_error net = ⊥

  wire-Known :
      (wire : Wire) (net : State) (before after : Bytes)
      → SaysLength wire × Good net
      → HeadWire wire before after
      → Exchanged Good (λ _. ⊥) Known wire net
  wire-Known (answered status headers _) net before after ((success, sure), good) (_, told) =
      let (t, there, parsed) = told success in
      rw success (good, sure, (t, length before, there, parsed))
  wire-Known stale net before after (fails, _) told = absurd fails
  wire-Known broken net before after (fails, _) told = absurd fails

module _ (N : Network) (c : Config) (held : N.State → Bytes) where
  -- The upload returns its URL, and the server holds the file up to the stop.
  abbrev pub Completes : ℕ → Outcome (Option String) × Session N.State → Type 0
  Completes max_offset (done none, s) = ⊥
  Completes max_offset (done (some url), s) = (url ≡ c.url) × (held s.net ≡ take max_offset c.file)
  Completes max_offset (raised e, s) = ⊥

module _ (N : Network) (c : Config) (held : N.State → Bytes) (Good : N.State → Type 0)
    (T : IsTusServer N c held) (F : IsReliable N c held Good) (direct : c.via_proxy ≡ false) where
  head_reply-Works :
      (offset : ℕ) (p : Reply × Session N.State)
      → (p.1.offset ≡ offset) × Known N.State Good p.0 p.1.net
      → Works N c held Good T F direct (head_reply N c p)
  head_reply-Works offset (response status headers, s) (_, (good, sure, (t, n, there, parsed))) =
      rw (there, parsed) (good, sure)
  head_reply-Works offset (http_error code, s) (_, fails) = absurd fails
  head_reply-Works offset (url_error, s) (_, fails) = absurd fails

  get_offset-Works :
      (s : Session N.State) → Good s.net → Works N c held Good T F direct (get_offset N c s)
  unfolding get_offset
  get_offset-Works s good =
      let drawn = draw_id N c (head_headers c) s in
      let (same_offset, same) = draw_id-keeps N c held T direct (head_headers c) s in
      let req = head_request c (with_request_id drawn.0 (head_headers c)) in
      head_reply-Works s.offset (send N c req drawn.1) (
        send-Replied Good (λ _. ⊥) (Known N.State Good) N c (λ n. n) s.offset req (λ h e. absurd e)
          (λ h e. absurd e)
          (λ kept net (before : Good net).
            wire-Known N.State Good (N.exchange kept req net).0 (N.exchange kept req net).1
              (held net) (held (N.exchange kept req net).1) (F.head kept drawn.0 net before)
              (T.head kept drawn.0 net))
          drawn.1 direct same_offset
          (draw_id-Good N c held Good T F direct (head_headers c) s good))

  opened-Works :
      (p : Outcome ℕ × Session N.State)
      → Works N c held Good T F direct p
      → Works N c held Good T F direct (opened N c p)
  unfolding update_stats
  opened-Works (done n, s) h = h
  opened-Works (raised e, s) h = absurd h

  start-Works : (net : N.State) → Good net → Works N c held Good T F direct (start N c net)
  unfolding start
  start-Works net good =
      let s0 : Session N.State = record {
        offset = 0;
        length_deferred = false;
        stats = new_stats c.file_size;
        connected = false;
        net = net;
      } in
      opened-Works (get_offset N c s0) (get_offset-Works s0 good)

  module _ (positive : 0 < c.chunk_size) (sized : c.file_size ≡ length c.file) (max_offset : ℕ)
      (stop : max_offset ≤ length c.file) where
    commit_length-Completes :
        (s : Session N.State)
        → s.length_deferred ≡ false
        → held s.net ≡ take max_offset c.file
        → Completes N c held max_offset (then_url N c (commit_length N c s))
    unfolding commit_length
    commit_length-Completes s sure h = rw sure (refl, h)

    abbrev Runs : ℕ → Type 0
    Runs fuel =
        (s : Session N.State)
        → Synced N c held s
        → Good s.net × (s.length_deferred ≡ false)
        → s.offset ≤ max_offset
        → max_offset < s.offset + fuel
        → Completes N c held max_offset (upload_from N c fuel max_offset s)

    rest-Completes :
        (fuel offset : ℕ) (p : Outcome Unit × Session N.State)
        → Runs fuel
        → max_offset < offset + suc fuel
        → Moved N c held offset max_offset p
        → Works N c held Good T F direct p
        → Completes N c held max_offset (continue (λ _. upload_from N c fuel max_offset) p)
    rest-Completes fuel offset (done _, s) runs enough (synced, further, low) works =
        runs s synced works low (omega (arith, enough, further))
    rest-Completes fuel offset (raised e, s) runs enough part works = absurd works

    upload_from-Completes : (fuel : ℕ) → Runs fuel
    unfolding upload_from
    upload_from-Completes zero s synced works low enough = absurd (omega (arith, low, enough))
    upload_from-Completes (suc fuel) s synced works low enough =
        elim (Bool-cases (ltb s.offset max_offset)) [
          | inl more ↦ rw more (
              rest-Completes fuel s.offset (upload_next N c max_offset s)
                (upload_from-Completes fuel) enough
                (upload_next-Moved N c held T direct positive max_offset s synced (ground arith)
                  stop)
                (upload_next-Works N c held Good T F direct positive sized max_offset s synced works
                  (ground arith) stop))
          | inr all ↦
              let at_stop : s.offset ≡ max_offset = ground arith in
              rw all (commit_length-Completes s works.1 (rw (← at_stop) synced.0))
        ]

module _ (N : Network) (c : Config) (held : N.State → Bytes) (Good : N.State → Type 0)
    (T : IsTusServer N c held) (F : IsReliable N c held Good) (direct : c.via_proxy ≡ false)
    (positive : 0 < c.chunk_size) (sized : c.file_size ≡ length c.file) where
  run_opened :
      (k fuel : ℕ) (stop_at : Option ℕ) (p : Outcome Unit × Session N.State)
      → k ≤ stop_offset N c stop_at
      → stop_offset N c stop_at < k + fuel
      → Opens N c held T direct positive sized k p
      → Works N c held Good T F direct p
      → Completes N c held (stop_offset N c stop_at) (continue (λ _. upload N c fuel stop_at) p)
  unfolding upload
  run_opened k fuel stop_at (done _, s) low enough (at_k, h) works =
      let within = stop_within N c held T direct positive sized stop_at in
      upload_from-Completes N c held Good T F direct positive sized (stop_offset N c stop_at) within
        fuel s (rw at_k h, omega (arith, at_k, low, within)) works (omega (arith, at_k, low))
        (omega (arith, at_k, enough))
  run_opened k fuel stop_at (raised e, s) low enough h works = absurd works

  -- Over a network that loses nothing, to a server that accepts what continues the file: where the
  -- server holds the first `k` bytes of the file, and there is more fuel than bytes are left up to
  -- the stop, opening the uploader and `upload` return the upload's URL, and the server then holds
  -- the file exactly up to the stop.
  pub run-Completes :
      (k fuel : ℕ) (stop_at : Option ℕ) (net : N.State)
      → Good net
      → held net ≡ take k c.file
      → k ≤ stop_offset N c stop_at
      → stop_offset N c stop_at < k + fuel
      → Completes N c held (stop_offset N c stop_at) (run N c fuel stop_at net)
  run-Completes k fuel stop_at net good before low enough =
      run_opened k fuel stop_at (start N c net) low enough
        (start-Opens N c held T direct positive sized k net before
          (omega (arith, low, stop_within N c held T direct positive sized stop_at)))
        (start-Works N c held Good T F direct net good)
