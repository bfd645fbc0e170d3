-- ===== src/Client/Uploader/Sends.antt =====
-- What a PATCH and a HEAD of the uploader do to the bytes that the server holds, over a network
-- that may lose requests and answers.
use resumable_upload.Prelude.{
  ℕ, ◌+◌, ◌≤◌, ◌≡◌, ◌≢◌, refl, ap, String, ◌⊎◌, inl, inr, Bool, some, [], ◌∷◌, ◌++◌, ◌∙◌, int,
  append-nil, Bytes, length, take, length-take, arith, Bool-cases, if◌then◌else◌,
}
use resumable_upload.Prelude.Dict
use resumable_upload.Prelude.Dict.{Dict}
use resumable_upload.Client.Network.{
  Wire, answered, stale, broken, Reply, response, http_error, url_error,
}
use resumable_upload.Client.Contract.{PatchWire, HeadWire}
use resumable_upload.Client.Uploader.Transport.{Exchanged}
use resumable_upload.Client.Uploader.{is_success, natural, moved_offset}

-- `chunk` is what `file` has from `offset` on.
pub record IsChunk (file : Bytes) (offset : ℕ) (chunk : Bytes) : Type 0 where
  pub within : offset + length chunk ≤ length file
  pub follows : take offset file ++ chunk ≡ take (offset + length chunk) file

-- The bytes of the file up to the chunk, or up to its end.
abbrev pub Held : Bytes → ℕ → Bytes → Bytes → Type 0
Held file offset chunk h = (h ≡ take offset file) ⊎ (h ≡ take (offset + length chunk) file)

empty_of_length : (d : Bytes) → length d ≡ 0 → d ≡ []
empty_of_length [] e = refl
empty_of_length (x ∷ d) e = absurd (omega (arith, e))

module _ (file : Bytes) (offset : ℕ) (chunk : Bytes) (fits : IsChunk file offset chunk) where
  pub length-front : length (take offset file) ≡ offset
  length-front = omega (arith, length-take {0} offset file, fits.within)

  pub length-back : length (take (offset + length chunk) file) ≡ offset + length chunk
  length-back = omega (arith, length-take {0} (offset + length chunk) file, fits.within)

  -- Applied once, at whatever time, the chunk is there.
  applied-back :
      (h h' : Bytes)
      → Held file offset chunk h
      → length h ≡ offset
      → h' ≡ h ++ chunk
      → h' ≡ take (offset + length chunk) file
  applied-back h h' (inl front) at_end grown = rw (grown, front) fits.follows
  applied-back h h' (inr back) at_end grown =
      let empty : chunk ≡ [] =
        empty_of_length chunk (omega (arith, ap length back, length-back, at_end)) in
      rw (grown, back, empty) (append-nil _)

  refused-back :
      (h h' : Bytes)
      → Held file offset chunk h
      → length h ≢ offset
      → h' ≡ h
      → h' ≡ take (offset + length chunk) file
  refused-back h h' (inl front) elsewhere same = absurd (elsewhere (rw front length-front))
  refused-back h h' (inr back) elsewhere same = rw same back

  same-Held : (h h' : Bytes) → Held file offset chunk h → h' ≡ h → Held file offset chunk h'
  same-Held h h' held same = rw same held

  lost-Held :
      (h h' : Bytes)
      → Held file offset chunk h
      → (h' ≡ h) ⊎ ((length h ≡ offset) × (h' ≡ h ++ chunk))
      → Held file offset chunk h'
  lost-Held h h' held (inl same) = same-Held h h' held same
  lost-Held h h' held (inr (at_end, grown)) = inr (applied-back h h' held at_end grown)

  -- What a reply to the PATCH says of the bytes that are held now.
  abbrev pub Sent : Reply → Bytes → Type 0
  Sent (response status headers) h =
      (h ≡ take (offset + length chunk) file)
      × (moved_offset offset (length chunk) headers ≡ some (offset + length chunk))
  Sent (http_error code) h =
      Held file offset chunk h × (code ≡ 409 → h ≡ take (offset + length chunk) file)
  Sent url_error h = Held file offset chunk h

  answered-Sent :
      (status : ℕ) (headers : Dict String) (will_close : Bool) (h h' : Bytes)
      → Held file offset chunk h
      → PatchWire (answered status headers will_close) offset chunk h h'
      → Sent (if is_success status then response status headers else http_error status) h'
  answered-Sent status headers will_close h h' before wire = elim (Bool-cases (is_success status)) [
    | inl good ↦
        let ((at_end, grown), moved) = wire.0 good in
        rw good (applied-back h h' before at_end grown, moved)
    | inr bad ↦
        let same = wire.1 bad in
        rw bad
          (same-Held h h' before same, λ conflict. refused-back h h' before (wire.2 conflict) same)
  ]

  pub patch-Exchanged :
      (wire : Wire) (h h' : Bytes)
      → Held file offset chunk h
      → PatchWire wire offset chunk h h'
      → Exchanged (Held file offset chunk) (Held file offset chunk) Sent wire h'
  patch-Exchanged (answered status headers will_close) h h' before w =
      answered-Sent status headers will_close h h' before w
  patch-Exchanged stale h h' before w = lost-Held h h' before w
  patch-Exchanged broken h h' before w = lost-Held h h' before w

-- What a reply to HEAD says where `now` is held.
module _ (now : Bytes) where
  abbrev pub Told : Reply → Bytes → Type 0
  Told (response status headers) h =
      (h ≡ now)
      × ((t : String) × (Dict.get headers "Upload-Offset" ≡ some t)
          × (natural (int t) ≡ some (length now)))
  Told (http_error code) h = h ≡ now
  Told url_error h = h ≡ now

  pub head-Exchanged :
      (wire : Wire) (h h' : Bytes)
      → h ≡ now
      → HeadWire wire h h'
      → Exchanged (λ b. b ≡ now) (λ b. b ≡ now) Told wire h'
  head-Exchanged (answered status headers _) h h' before w = elim (Bool-cases (is_success status)) [
    | inl good ↦
        let (t, there, parsed) = w.1 good in
        rw good (w.0 ∙ before, (t, there, rw (← before) parsed))
    | inr bad ↦ rw bad (w.0 ∙ before)
  ]
  head-Exchanged stale h h' before w = w ∙ before
  head-Exchanged broken h h' before w = w ∙ before
