-- ===== src/Client/Uploader/Uploads.antt =====
-- The loop of `upload`, over a network that may lose requests and answers.
use native.Mathlib.Nat.{add-zero}
use resumable_upload.Prelude.{
  ℕ, zero, suc, ◌+◌, ◌-◌, ◌≤◌, ◌<◌, ◌≡◌, refl, ◌∙◌, ap, inl, inr, min, String, false, ◌&&◌, Option,
  none, some, [], ◌∷◌, append-nil, Bytes, length, take, drop, is_empty, length-take, ltb, leb,
  arith, Bool-cases,
}
use resumable_upload.Client.FileSlice.Slices.{take-take}
use resumable_upload.Client.Outcome.{
  communication, upload_failed, offset_mismatch, os_error, value_error, Outcome, done, raised,
  continue, pure,
}
use resumable_upload.Client.Network.{Network}
use resumable_upload.Client.Contract.{IsTusServer}
use resumable_upload.Client.Uploader.{Config, Session, get_offset, update_stats}
use resumable_upload.Client.Uploader.Chunks.{After, upload_one-After, Reported, get_offset-Reported}
use resumable_upload.Client.Uploader.Sends.{IsChunk, Held}
use resumable_upload.Client.Uploader.Upload.{
  upload_one, resynced, or_resync, read_chunk, upload_next, commit_length, then_url, upload_from,
}

length-drop : (n : ℕ) (xs : Bytes) → length (drop n xs) ≡ length xs - n
length-drop zero xs = omega arith
length-drop (suc n) [] = omega arith
length-drop (suc n) (x ∷ xs) = omega (arith, length-drop n xs)

pub not_empty : (xs : Bytes) → 0 < length xs → is_empty xs ≡ false
not_empty [] h = absurd (omega arith)
not_empty (x ∷ xs) h = refl

pub part-IsChunk :
    (file : Bytes) (offset n : ℕ)
    → offset + n ≤ length file
    → (length (take n (drop offset file)) ≡ n) × IsChunk file offset (take n (drop offset file))
part-IsChunk file offset n h =
    let size : length (take n (drop offset file)) ≡ n =
      omega (arith, length-take {0} n (drop offset file), length-drop offset file) in
    (size, record { within = rw size h; follows = rw size (take-take offset n file) })

empty-IsChunk : (file : Bytes) (offset : ℕ) → offset ≤ length file → IsChunk file offset []
empty-IsChunk file offset h = record {
  within = omega arith;
  follows = rw (add-zero offset) (append-nil (take offset file));
}

module _ (N : Network) (c : Config) (held : N.State → Bytes) where
  -- The server holds the file up to the uploader's offset.
  abbrev pub Synced : Session N.State → Type 0
  Synced s = (held s.net ≡ take s.offset c.file) × (s.offset ≤ length c.file)

  -- The server holds a first part of the file.
  abbrev pub HoldsPart : N.State → Type 0
  HoldsPart net = (n : ℕ) × (held net ≡ take n c.file)

  -- A round that goes on has moved the offset.
  abbrev pub Moved : ℕ → ℕ → Outcome Unit × Session N.State → Type 0
  Moved offset max_offset (done _, s) = Synced s × (offset < s.offset) × (s.offset ≤ max_offset)
  Moved offset max_offset (raised e, s) = HoldsPart s.net

  -- How `upload` ends: not for want of fuel; with the file up to its stop at the server; or with an
  -- exception, and a first part of the file at the server.
  abbrev pub Finishes : ℕ → Outcome (Option String) × Session N.State → Type 0
  Finishes max_offset (done none, s) = ⊥
  Finishes max_offset (done (some url), s) = (url ≡ c.url) × (held s.net ≡ take max_offset c.file)
  Finishes max_offset (raised e, s) = HoldsPart s.net

module _ (N : Network) (c : Config) (held : N.State → Bytes) (T : IsTusServer N c held)
    (direct : c.via_proxy ≡ false) (positive : 0 < c.chunk_size) where
  Held-HoldsPart :
      (offset : ℕ) (chunk : Bytes) (net : N.State)
      → Held c.file offset chunk (held net)
      → HoldsPart N c held net
  Held-HoldsPart offset chunk net (inl e) = (offset, e)
  Held-HoldsPart offset chunk net (inr e) = (offset + length chunk, e)

  module _ (offset max_offset : ℕ) (chunk : Bytes) (fits : IsChunk c.file offset chunk)
      (some_bytes : 0 < length chunk) (below : offset + length chunk ≤ max_offset) where
    resynced-Moved :
        (old : ℕ) (now : Bytes) (p : Outcome ℕ × Session N.State)
        → Reported N c held T direct old now p
        → now ≡ take (offset + length chunk) c.file
        → Moved N c held offset max_offset (resynced N c p)
    unfolding update_stats
    resynced-Moved old now (done n, s) (counted, _, same) at_end =
        let size : n ≡ offset + length chunk = omega (
          arith,
          ap length at_end,
          counted,
          length-take {0} (offset + length chunk) c.file,
          fits.within,
        ) in
        rw size ((same ∙ at_end, fits.within), omega (arith, some_bytes), below)
    resynced-Moved old now (raised e, s) (_, same) at_end = (offset + length chunk, same ∙ at_end)

    or_resync-Moved :
        (p : Outcome Unit × Session N.State)
        → After N c held T direct offset chunk fits p
        → Moved N c held offset max_offset (or_resync N c p)
    or_resync-Moved (done _, s) (moved, h) =
        rw moved ((h, fits.within), omega (arith, some_bytes), below)
    or_resync-Moved (raised offset_mismatch, s) (_, h) =
        resynced-Moved s.offset (held s.net) (get_offset N c s)
          (get_offset-Reported N c held T direct s) h
    or_resync-Moved (raised (communication _), s) (_, h) = Held-HoldsPart offset chunk s.net h
    or_resync-Moved (raised (upload_failed _), s) (_, h) = Held-HoldsPart offset chunk s.net h
    or_resync-Moved (raised os_error, s) (_, h) = Held-HoldsPart offset chunk s.net h
    or_resync-Moved (raised value_error, s) (_, h) = Held-HoldsPart offset chunk s.net h

  pub upload_next-Moved :
      (max_offset : ℕ) (s : Session N.State)
      → Synced N c held s
      → s.offset < max_offset
      → max_offset ≤ length c.file
      → Moved N c held s.offset max_offset (upload_next N c max_offset s)
  unfolding upload_next
  upload_next-Moved max_offset s (h, within) more stop =
      let n = min c.chunk_size (max_offset - s.offset) in
      let (size, fits) = part-IsChunk c.file s.offset n (omega arith) in
      let chunk = read_chunk N c max_offset s.offset in
      let some_bytes : 0 < length chunk = omega (arith, size, positive, more) in
      rw (not_empty chunk some_bytes) (
        or_resync-Moved s.offset max_offset chunk fits some_bytes (omega (arith, size))
          (upload_one N c chunk s)
          (upload_one-After N c held T direct s.offset chunk fits s (refl, inl h)))

  module _ (max_offset : ℕ) (stop : max_offset ≤ length c.file) where
    committed-Finishes :
        (offset : ℕ) (fits : IsChunk c.file offset []) (p : Outcome Unit × Session N.State)
        → offset ≡ max_offset
        → After N c held T direct offset [] fits p
        → Finishes N c held max_offset (then_url N c (continue (λ _. pure c.url) p))
    committed-Finishes offset fits (done _, s) at_stop (_, h) =
        (refl, rw (h, at_stop, add-zero max_offset) refl)
    committed-Finishes offset fits (raised offset_mismatch, s) at_stop (_, h) = (offset + 0, h)
    committed-Finishes offset fits (raised (communication _), s) at_stop (_, h) =
        Held-HoldsPart offset [] s.net h
    committed-Finishes offset fits (raised (upload_failed _), s) at_stop (_, h) =
        Held-HoldsPart offset [] s.net h
    committed-Finishes offset fits (raised os_error, s) at_stop (_, h) =
        Held-HoldsPart offset [] s.net h
    committed-Finishes offset fits (raised value_error, s) at_stop (_, h) =
        Held-HoldsPart offset [] s.net h

    commit_length-Finishes :
        (s : Session N.State)
        → Synced N c held s
        → s.offset ≡ max_offset
        → Finishes N c held max_offset (then_url N c (commit_length N c s))
    unfolding commit_length
    commit_length-Finishes s (h, within) at_stop =
        elim (Bool-cases (s.length_deferred && leb c.file_size s.offset)) [
          | inl deferred ↦
              let fits = empty-IsChunk c.file s.offset within in
              rw deferred (
                committed-Finishes s.offset fits (upload_one N c [] s) at_stop
                  (upload_one-After N c held T direct s.offset [] fits s (refl, inl h)))
          | inr plain ↦ rw plain (refl, rw (h, at_stop) refl)
        ]

    -- What one more unit of fuel gives to the rounds that follow.
    abbrev pub Runs : ℕ → Type 0
    Runs fuel =
        (s : Session N.State)
        → Synced N c held s
        → s.offset ≤ max_offset
        → max_offset < s.offset + fuel
        → Finishes N c held max_offset (upload_from N c fuel max_offset s)

    rest-Finishes :
        (fuel offset : ℕ) (p : Outcome Unit × Session N.State)
        → Runs fuel
        → max_offset < offset + suc fuel
        → Moved N c held offset max_offset p
        → Finishes N c held max_offset (continue (λ _. upload_from N c fuel max_offset) p)
    rest-Finishes fuel offset (done _, s) runs enough (synced, further, low) =
        runs s synced low (omega (arith, enough, further))
    rest-Finishes fuel offset (raised e, s) runs enough part = part

    pub upload_from-Finishes : (fuel : ℕ) → Runs fuel
    unfolding upload_from
    upload_from-Finishes zero s synced low enough = absurd (omega (arith, low, enough))
    upload_from-Finishes (suc fuel) s synced low enough =
        elim (Bool-cases (ltb s.offset max_offset)) [
          | inl more ↦ rw more (
              rest-Finishes fuel s.offset (upload_next N c max_offset s) (upload_from-Finishes fuel)
                enough (upload_next-Moved max_offset s synced (ground arith) stop))
          | inr all ↦ rw all (commit_length-Finishes s synced (ground arith))
        ]
