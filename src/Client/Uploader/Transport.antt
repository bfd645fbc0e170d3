-- ===== src/Client/Uploader/Transport.antt =====
-- A property of the server's state, seen through `view`, over the attempts of `_send`.
use resumable_upload.Prelude.{ℕ, ◌≡◌, Bool, true, false, Option, none, some, if◌then◌else◌}
use resumable_upload.Client.Network.{
  Request, Wire, answered, stale, broken, Reply, response, http_error, url_error, Network,
}
use resumable_upload.Client.Uploader.{
  Config, Session, is_success, received, roundtrip, last_try, first_try, send,
}

-- `P` holds before the request, `R` where its answer is lost, and `Q` with the reply.
module _ {A : Type 0} (P R : A → Type 0) (Q : Reply → A → Type 0) where
  abbrev pub Exchanged : Wire → A → Type 0
  Exchanged (answered status headers _) h =
      Q (if is_success status then response status headers else http_error status) h
  Exchanged stale h = R h
  Exchanged broken h = R h

  module _ (N : Network) (c : Config) (view : N.State → A) (offset : ℕ) (req : Request)
      (lost : (h : A) → R h → Q url_error h) (again : (h : A) → R h → P h)
      (law : (kept : Bool) (net : N.State)
        → P (view net)
        → Exchanged (N.exchange kept req net).0 (view (N.exchange kept req net).1)) where
    abbrev Round : Option Reply × Session N.State → Type 0
    Round (some r, s) = (s.offset ≡ offset) × Q r (view s.net)
    Round (none, s) = (s.offset ≡ offset) × R (view s.net)

    abbrev pub Replied : Reply × Session N.State → Type 0
    Replied (r, s) = (s.offset ≡ offset) × Q r (view s.net)

    received-Round :
        (wire : Wire) (s : Session N.State)
        → s.offset ≡ offset
        → Exchanged wire (view s.net)
        → Round (received N c wire s)
    received-Round (answered status headers true) s at_offset h = (at_offset, h)
    received-Round (answered status headers false) s at_offset h = (at_offset, h)
    received-Round stale s at_offset h = (at_offset, h)
    received-Round broken s at_offset h = (at_offset, lost (view s.net) h)

    roundtrip-Round :
        (s : Session N.State) → s.offset ≡ offset → P (view s.net) → Round (roundtrip N c req s)
    unfolding roundtrip
    roundtrip-Round s at_offset before =
        received-Round (N.exchange s.connected req s.net).0
          (record s { connected = true; net = (N.exchange s.connected req s.net).1 }) at_offset
          (law s.connected s.net before)

    last_try-Replied : (p : Option Reply × Session N.State) → Round p → Replied (last_try N c p)
    last_try-Replied (none, s) (at_offset, h) = (at_offset, lost (view s.net) h)
    last_try-Replied (some r, s) h = h

    first_try-Replied :
        (reused : Bool) (p : Option Reply × Session N.State)
        → Round p
        → Replied (first_try N c reused req p)
    first_try-Replied true (none, s) (at_offset, h) =
        last_try-Replied (roundtrip N c req (record s { connected = false }))
          (roundtrip-Round (record s { connected = false }) at_offset (again (view s.net) h))
    first_try-Replied false (none, s) (at_offset, h) = (at_offset, lost (view s.net) h)
    first_try-Replied true (some r, s) h = h
    first_try-Replied false (some r, s) h = h

    pub send-Replied :
        (s : Session N.State)
        → c.via_proxy ≡ false
        → s.offset ≡ offset
        → P (view s.net)
        → Replied (send N c req s)
    unfolding send
    send-Replied s direct at_offset before =
        simp direct
          (first_try-Replied s.connected (roundtrip N c req s) (roundtrip-Round s at_offset before))
