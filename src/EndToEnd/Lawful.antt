-- ===== src/EndToEnd/Lawful.antt =====
-- The link to the server keeps what a TUS server promises a client.
use resumable_upload.Prelude.{
  ℕ, ◌≡◌, refl, ap, ◌⊎◌, inl, inr, String, Bool, true, false, Option, none, some, List, [], ◌∷◌,
  or_default, Bytes, str, Bool-cases, lower,
}
use resumable_upload.Prelude.Dict
use resumable_upload.Prelude.Dict.{Dict}
use resumable_upload.Server.Request.{normalize_headers}
use resumable_upload.Client.Contract.{Applied, PatchWire, HeadWire, IsTusServer}
use resumable_upload.Client.Network.{Request, Wire, answered, stale, broken}
use resumable_upload.Client.Uploader.{
  is_success, with_request_id, chunk_headers, patch_request, head_request, head_headers,
}
use resumable_upload.EndToEnd.Served.{handle_request-Patched, handle_request-Asked}
use resumable_upload.EndToEnd.Link.{
  Fate, delivered, request_lost, answer_lost, Options, plain_uploader, Setup, lost_as, Ends, held,
  reply_to, reached, carry, link,
}

-- The server reads the offset that the uploader sends.
sent_offset :
    (o : Options) (deferred : Bool) (offset : ℕ) (chunk : Bytes) (headers : Dict String)
    (request_id : Option String)
    → chunk_headers (plain_uploader o) deferred offset chunk ≡ some headers
    → Dict.get
        (normalize_headers
          (patch_request (plain_uploader o) (with_request_id request_id headers) chunk).headers)
        "upload-offset"
      ≡ some (str offset)
unfolding chunk_headers patch_request normalize_headers lower Dict.get Dict.put Dict.merge
sent_offset o true offset chunk headers none made =
    let same : or_default (chunk_headers (plain_uploader o) true offset chunk) [] ≡ headers =
      ap (λ (h : Option (Dict String)). or_default h []) made in
    rw (← same) refl
sent_offset o true offset chunk headers (some r) made =
    let same : or_default (chunk_headers (plain_uploader o) true offset chunk) [] ≡ headers =
      ap (λ (h : Option (Dict String)). or_default h []) made in
    rw (← same) refl
sent_offset o false offset chunk headers none made =
    let same : or_default (chunk_headers (plain_uploader o) false offset chunk) [] ≡ headers =
      ap (λ (h : Option (Dict String)). or_default h []) made in
    rw (← same) refl
sent_offset o false offset chunk headers (some r) made =
    let same : or_default (chunk_headers (plain_uploader o) false offset chunk) [] ≡ headers =
      ap (λ (h : Option (Dict String)). or_default h []) made in
    rw (← same) refl

-- Whether an answer is delivered or lost, the chunk was applied or it was not.
known_outcome :
    (wire : Wire) (offset : ℕ) (chunk before after : Bytes)
    → PatchWire wire offset chunk before after
    → (after ≡ before) ⊎ Applied offset chunk before after
known_outcome (answered status headers _) offset chunk before after (good, bad, _) =
    elim (Bool-cases (is_success status)) [
      | inl success ↦ inr (good success).0
      | inr failure ↦ inl (bad failure)
    ]
known_outcome stale offset chunk before after h = h
known_outcome broken offset chunk before after h = h

lost_PatchWire :
    (looks : Bool) (offset : ℕ) (chunk before after : Bytes)
    → (after ≡ before) ⊎ Applied offset chunk before after
    → PatchWire (lost_as looks) offset chunk before after
lost_PatchWire true offset chunk before after h = h
lost_PatchWire false offset chunk before after h = h

unchanged : (wire : Wire) (before after : Bytes) → HeadWire wire before after → after ≡ before
unchanged (answered status headers _) before after h = h.0
unchanged stale before after h = h
unchanged broken before after h = h

lost_HeadWire :
    (looks : Bool) (before after : Bytes) → after ≡ before → HeadWire (lost_as looks) before after
lost_HeadWire true before after h = h
lost_HeadWire false before after h = h

module _ (x : Setup) (req : Request) where
  module _ (offset : ℕ) (chunk : Bytes) (is_patch : req.method ≡ "PATCH")
      (with_body : req.body ≡ some chunk)
      (sent : Dict.get (normalize_headers req.headers) "upload-offset" ≡ some (str offset)) where
    handled-PatchWire :
        (fates : List Fate) (e : Ends x)
        → PatchWire (reply_to x req e) offset chunk (held x e) (held x (reached x fates req e))
    handled-PatchWire fates e =
        rw (is_patch, with_body)
          ((handle_request-Patched x.storage x.lawful x.locks x.server x.plain x.context x.id x.path
              req.headers chunk e.site x.to_patch e.ready).1
            offset sent)

    carry-PatchWire :
        (fates : List Fate) (e : Ends x)
        → let (wire, e') = carry x fates req e in PatchWire wire offset chunk (held x e) (held x e')
    carry-PatchWire [] e = handled-PatchWire [] e
    carry-PatchWire (delivered ∷ fates) e = handled-PatchWire fates e
    carry-PatchWire (request_lost looks ∷ fates) e =
        lost_PatchWire looks offset chunk (held x e) (held x e) (inl refl)
    carry-PatchWire (answer_lost looks ∷ fates) e =
        lost_PatchWire looks offset chunk (held x e) (held x (reached x fates req e)) (
          known_outcome (reply_to x req e) offset chunk (held x e) (held x (reached x fates req e))
            (handled-PatchWire fates e))

  module _ (is_head : req.method ≡ "HEAD") where
    handled-HeadWire :
        (fates : List Fate) (e : Ends x)
        → HeadWire (reply_to x req e) (held x e) (held x (reached x fates req e))
    handled-HeadWire fates e =
        rw is_head
          (handle_request-Asked x.storage x.lawful x.locks x.server x.plain x.context x.id x.path
            req.headers (or_default req.body []) e.site x.to_head e.ready).1

    carry-HeadWire :
        (fates : List Fate) (e : Ends x)
        → let (wire, e') = carry x fates req e in HeadWire wire (held x e) (held x e')
    carry-HeadWire [] e = handled-HeadWire [] e
    carry-HeadWire (delivered ∷ fates) e = handled-HeadWire fates e
    carry-HeadWire (request_lost looks ∷ fates) e = lost_HeadWire looks (held x e) (held x e) refl
    carry-HeadWire (answer_lost looks ∷ fates) e =
        lost_HeadWire looks (held x e) (held x (reached x fates req e)) (
          unchanged (reply_to x req e) (held x e) (held x (reached x fates req e))
            (handled-HeadWire fates e))

-- The server over a lawful storage, behind a link that may lose any request and any answer, is a
-- TUS server to the uploader: what it acknowledges grows by the chunk of a PATCH at its end, and
-- changes in no other way; its answers tell so.
pub link-IsTusServer : (x : Setup) (o : Options) → IsTusServer (link x) (plain_uploader o) (held x)
unfolding patch_request head_request
link-IsTusServer x o = record {
  patch = λ kept deferred offset chunk headers id e made.
      carry-PatchWire x (patch_request (plain_uploader o) (with_request_id id headers) chunk) offset
        chunk refl refl (sent_offset o deferred offset chunk headers id made) e.fates e;
  head = λ kept id e.
      carry-HeadWire x
        (head_request (plain_uploader o) (with_request_id id (head_headers (plain_uploader o))))
        refl e.fates e;
  uuid4 = λ e. refl;
  wait = λ time e. refl;
}
