-- ===== src/Client/Contract.antt =====
-- What a TUS server promises a client, over a network that may lose requests and answers: the bytes
-- that it holds grow by the chunk of a PATCH at their end, and change in no other way.
use resumable_upload.Prelude.{
  ℕ, ◌+◌, ◌≤◌, ◌<◌, ◌≡◌, ◌≢◌, ◌⊎◌, String, Bool, true, false, Option, some, ◌++◌, Bytes, length,
  int,
}
use resumable_upload.Prelude.Dict
use resumable_upload.Prelude.Dict.{Dict}
use resumable_upload.Client.Network.{Wire, answered, stale, broken, Network}
use resumable_upload.Client.Uploader.{
  Config, is_one, is_success, natural, with_request_id, moved_offset, chunk_headers, patch_request,
  head_headers, head_request,
}

-- The chunk is at the end of what was held, and is held now.
abbrev pub Applied : ℕ → Bytes → Bytes → Bytes → Type 0
Applied offset chunk before after = (length before ≡ offset) × (after ≡ before ++ chunk)

-- A lost answer leaves open whether the chunk was applied. A response of success says that it was,
-- any other that it was not, and a 409 that the offset was wrong.
abbrev pub PatchWire : Wire → ℕ → Bytes → Bytes → Bytes → Type 0
PatchWire (answered status headers _) offset chunk before after =
    (is_success status ≡ true
      → Applied offset chunk before after
        × (moved_offset offset (length chunk) headers ≡ some (offset + length chunk)))
    × (is_success status ≡ false → after ≡ before)
    × (status ≡ 409 → length before ≢ offset)
PatchWire stale offset chunk before after = (after ≡ before) ⊎ Applied offset chunk before after
PatchWire broken offset chunk before after = (after ≡ before) ⊎ Applied offset chunk before after

-- A response of success to HEAD tells how many bytes are held.
abbrev pub HeadWire : Wire → Bytes → Bytes → Type 0
HeadWire (answered status headers _) before after =
    (after ≡ before)
    × (is_success status ≡ true
        → (t : String) × (Dict.get headers "Upload-Offset" ≡ some t)
          × (natural (int t) ≡ some (length before)))
HeadWire stale before after = after ≡ before
HeadWire broken before after = after ≡ before

pub record IsTusServer (N : Network) (c : Config) (held : N.State → Bytes) : Type 0 where
  pub patch :
      (kept deferred : Bool) (offset : ℕ) (chunk : Bytes) (headers : Dict String)
      (id : Option String) (net : N.State)
      → chunk_headers c deferred offset chunk ≡ some headers
      → let (wire, net') =
          N.exchange kept (patch_request c (with_request_id id headers) chunk) net in
        PatchWire wire offset chunk (held net) (held net')
  pub head :
      (kept : Bool) (id : Option String) (net : N.State)
      → let (wire, net') =
          N.exchange kept (head_request c (with_request_id id (head_headers c))) net in
        HeadWire wire (held net) (held net')
  pub uuid4 : (net : N.State) → held (N.uuid4 net).1 ≡ held net
  pub wait : (time : ℕ) (net : N.State) → held (N.wait time net).1 ≡ held net

-- A response of success.
abbrev pub Succeeds : Wire → Type 0
Succeeds (answered status headers _) = is_success status ≡ true
Succeeds stale = ⊥
Succeeds broken = ⊥

-- A response of success to HEAD for an upload whose length is known.
abbrev pub SaysLength : Wire → Type 0
SaysLength (answered status headers _) =
    (is_success status ≡ true) × (is_one (Dict.get headers "Upload-Defer-Length") ≡ false)
SaysLength stale = ⊥
SaysLength broken = ⊥

-- In the states that are `Good`, no message is lost, and the server accepts what continues the
-- file.
pub record IsReliable (N : Network) (c : Config) (held : N.State → Bytes) (Good : N.State → Type 0)
    : Type 0 where
  pub known :
      (offset : ℕ) (chunk : Bytes)
      → (headers : Dict String) × (chunk_headers c false offset chunk ≡ some headers)
  pub patch :
      (kept : Bool) (chunk : Bytes) (headers : Dict String) (id : Option String) (net : N.State)
      → Good net
      → 0 < length chunk
      → length chunk ≤ c.chunk_size
      → length (held net) + length chunk ≤ c.file_size
      → chunk_headers c false (length (held net)) chunk ≡ some headers
      → let (wire, net') =
          N.exchange kept (patch_request c (with_request_id id headers) chunk) net in
        Succeeds wire × Good net'
  pub head :
      (kept : Bool) (id : Option String) (net : N.State)
      → Good net
      → let (wire, net') =
          N.exchange kept (head_request c (with_request_id id (head_headers c))) net in
        SaysLength wire × Good net'
  pub uuid4 : (net : N.State) → Good net → Good (N.uuid4 net).1
