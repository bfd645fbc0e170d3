-- ===== src/Client/Uploader/Returns.antt =====
-- Over a network that loses nothing, and with a server that accepts what continues the file, the
-- uploader does not raise.
use resumable_upload.Prelude.{
  ℕ, zero, suc, ◌+◌, ◌-◌, ◌≤◌, ◌<◌, ◌≡◌, refl, ap, ◌∙◌, inl, inr, min, String, not, ◌&&◌, false,
  some, Bytes, length, length-take, ltb, arith, Bool-cases,
}
use resumable_upload.Prelude.Dict.{Dict}
use resumable_upload.Client.Outcome.{Outcome, done, raised, Exec}
use resumable_upload.Client.Network.{
  Wire, answered, stale, broken, Reply, response, http_error, url_error, Network,
}
use resumable_upload.Client.Contract.{PatchWire, IsTusServer, Succeeds, IsReliable}
use resumable_upload.Client.Uploader.{
  Config, Session, with_request_id, moved_offset, chunk_headers, patch_request, send, draw_id,
  has_request_id, chunk_reply, upload_chunk_once, update_stats,
}
use resumable_upload.Client.Uploader.Chunks.{draw_id-keeps}
use resumable_upload.Client.Uploader.Transport.{Exchanged, send-Replied}
use resumable_upload.Client.Uploader.Uploads.{Synced, not_empty, part-IsChunk}
use resumable_upload.Client.Uploader.Upload.{
  give_up, wait_then, attempted, attempts, once, upload_one, or_resync, read_chunk, upload_next,
}

module _ (N : Network) (c : Config) (held : N.State → Bytes) (Good : N.State → Type 0)
    (T : IsTusServer N c held) (F : IsReliable N c held Good) (direct : c.via_proxy ≡ false) where
  pub draw_id-Good :
      (headers : Dict String) (s : Session N.State)
      → Good s.net
      → Good (draw_id N c headers s).1.net
  unfolding draw_id
  draw_id-Good headers s good =
      elim (Bool-cases (c.add_request_id && not (has_request_id headers))) [
        | inl draws ↦ rw draws (F.uuid4 s.net good)
        | inr plain ↦ rw plain good
      ]

  -- A method that returns, in a good state, with the length of the upload committed.
  abbrev pub Works : {A : Type 0} → Outcome A × Session N.State → Type 0
  Works (done _, s) = Good s.net × (s.length_deferred ≡ false)
  Works (raised e, s) = ⊥

  or_resync-Works : (p : Outcome Unit × Session N.State) → Works p → Works (or_resync N c p)
  or_resync-Works (done _, s) h = h
  or_resync-Works (raised e, s) h = absurd h

  module _ (offset : ℕ) (chunk : Bytes) where
    abbrev Accepted : Reply → N.State → Type 0
    Accepted (response status headers) net =
        Good net × (moved_offset offset (length chunk) headers ≡ some (offset + length chunk))
    Accepted (http_error code) net = ⊥
    Accepted url_error net = ⊥

    abbrev AtEnd : N.State → Type 0
    AtEnd net = Good net × (length (held net) ≡ offset)

    wire-Accepted :
        (wire : Wire) (net : N.State) (before after : Bytes)
        → Succeeds wire × Good net
        → PatchWire wire offset chunk before after
        → Exchanged AtEnd (λ _. ⊥) Accepted wire net
    wire-Accepted (answered status headers _) net before after (success, good) (told, _, _) =
        rw success (good, (told success).1)
    wire-Accepted stale net before after (fails, _) told = absurd fails
    wire-Accepted broken net before after (fails, _) told = absurd fails

    chunk_reply-Works :
        (p : Reply × Session N.State)
        → (p.1.offset ≡ offset) × Accepted p.0 p.1.net
        → Works (chunk_reply N c (length chunk) p)
    chunk_reply-Works (response status headers, s) (at_offset, (good, moved)) =
        let told : moved_offset s.offset (length chunk) headers ≡ some (offset + length chunk) =
          rw at_offset moved in
        rw told (good, refl)
    chunk_reply-Works (http_error code, s) (_, fails) = absurd fails
    chunk_reply-Works (url_error, s) (_, fails) = absurd fails

    module _ (some_bytes : 0 < length chunk) (small : length chunk ≤ c.chunk_size)
        (within : offset + length chunk ≤ c.file_size) where
      upload_chunk_once-Works :
          (s : Session N.State)
          → s.offset ≡ offset
          → s.length_deferred ≡ false
          → Good s.net
          → length (held s.net) ≡ offset
          → Works (upload_chunk_once N c chunk s)
      unfolding upload_chunk_once
      upload_chunk_once-Works s at_offset sure good at_end =
          let (headers, made) = F.known offset chunk in
          let drawn = draw_id N c headers s in
          let (same_offset, same) = draw_id-keeps N c held T direct headers s in
          let req = patch_request c (with_request_id drawn.0 headers) chunk in
          let here : chunk_headers c s.length_deferred s.offset chunk ≡ some headers =
            rw (sure, at_offset) made in
          rw here (
            chunk_reply-Works (send N c req drawn.1) (
              send-Replied AtEnd (λ _. ⊥) Accepted N c (λ n. n) offset req (λ h e. absurd e)
                (λ h e. absurd e)
                (λ kept net (before : AtEnd net).
                  wire-Accepted (N.exchange kept req net).0 (N.exchange kept req net).1 (held net)
                    (held (N.exchange kept req net).1)
                    (F.patch kept chunk headers drawn.0 net before.0 some_bytes small
                      (omega (arith, before.1, within)) (rw before.1 made))
                    (T.patch kept false offset chunk headers drawn.0 net made))
                drawn.1 direct (same_offset ∙ at_offset)
                (draw_id-Good headers s good, ap length same ∙ at_end)))

      attempted-Works :
          (attempt : ℕ) (next : Exec (Session N.State) Unit) (p : Outcome Unit × Session N.State)
          → Works p
          → Works (attempted N c attempt next p)
      unfolding update_stats
      attempted-Works zero next (done _, s) h = h
      attempted-Works (suc n) next (done _, s) h = h
      attempted-Works attempt next (raised e, s) h = absurd h

      once-Works : (p : Outcome Unit × Session N.State) → Works p → Works (once N c p)
      unfolding update_stats
      once-Works (done _, s) h = h
      once-Works (raised e, s) h = absurd h

      attempts-Works :
          (remaining attempt : ℕ) (s : Session N.State)
          → Works (upload_chunk_once N c chunk s)
          → Works (attempts N c remaining attempt chunk s)
      unfolding attempts
      attempts-Works zero attempt s h =
          attempted-Works attempt (give_up N c) (upload_chunk_once N c chunk s) h
      attempts-Works (suc remaining) attempt s h =
          attempted-Works attempt
            (wait_then N c attempt (attempts N c remaining (suc attempt) chunk))
            (upload_chunk_once N c chunk s) h

      upload_one-Works :
          (s : Session N.State)
          → Works (upload_chunk_once N c chunk s)
          → Works (or_resync N c (upload_one N c chunk s))
      unfolding upload_one
      upload_one-Works s h = elim (Bool-cases (ltb 0 c.max_retries)) [
        | inl retries ↦ rw retries (
            or_resync-Works (attempts N c c.max_retries 0 chunk s)
              (attempts-Works c.max_retries 0 s h))
        | inr alone ↦ rw alone (
            or_resync-Works (once N c (upload_chunk_once N c chunk s))
              (once-Works (upload_chunk_once N c chunk s) h))
      ]

  pub upload_next-Works :
      0 < c.chunk_size
      → c.file_size ≡ length c.file
      → (max_offset : ℕ) (s : Session N.State) → Synced N c held s
      → Good s.net × (s.length_deferred ≡ false)
      → s.offset < max_offset
      → max_offset ≤ length c.file
      → Works (upload_next N c max_offset s)
  unfolding upload_next
  upload_next-Works positive sized max_offset s (h, within) (good, sure) more stop =
      let n = min c.chunk_size (max_offset - s.offset) in
      let (size, fits) = part-IsChunk c.file s.offset n (omega arith) in
      let chunk = read_chunk N c max_offset s.offset in
      let some_bytes : 0 < length chunk = omega (arith, size, positive, more) in
      let small : length chunk ≤ c.chunk_size = omega (arith, size) in
      let inside : s.offset + length chunk ≤ c.file_size = omega (arith, size, sized, stop, more) in
      let at_end : length (held s.net) ≡ s.offset =
        omega (arith, ap length h, length-take {0} s.offset c.file, within) in
      rw (not_empty chunk some_bytes) (
        upload_one-Works s.offset chunk some_bytes small inside s
          (upload_chunk_once-Works s.offset chunk some_bytes small inside s refl sure good at_end))
