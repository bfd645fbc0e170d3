-- ===== src/EndToEnd/Completes.antt =====
-- The uploader against the server over a link that loses nothing.
use resumable_upload.Prelude.{
  ℕ, ◌+◌, ◌≤◌, ◌<◌, ◌≡◌, refl, String, false, Option, none, some, [], Bytes, length, take, arith,
}
use resumable_upload.Prelude.Dict
use resumable_upload.Prelude.Dict.{Dict}
use resumable_upload.Server.Request.{normalize_headers}
use resumable_upload.Client.Contract.{Succeeds, SaysLength, IsReliable}
use resumable_upload.Client.Network.{Request}
use resumable_upload.Client.Uploader.{
  with_request_id, chunk_headers, patch_request, head_headers, head_request,
}
use resumable_upload.Client.Uploader.Completes.{Completes, run-Completes}
use resumable_upload.Client.Uploader.Delivers.{run}
use resumable_upload.Client.Uploader.Upload.{stop_offset}
use resumable_upload.EndToEnd.Accepts.{IsChunkOf, HasRoom, sent_chunk, sent_head}
use resumable_upload.EndToEnd.Lawful.{link-IsTusServer}
use resumable_upload.EndToEnd.Link.{Options, plain_uploader, Setup, Ends, held, carry, link}
use resumable_upload.EndToEnd.Open.{
  IsNeverBusy, IsOpen, handle_request-Succeeds, handle_request-says,
}
use resumable_upload.EndToEnd.Patches.{length-acknowledged}

module _ (x : Setup) (o : Options) (Free : x.locks.State → Type 0) where
  -- The server's limits leave room for the chunks, and its locks are got.
  pub record IsWilling : Type 0 where
    pub room : HasRoom x.server o.chunk_size
    pub never_busy : IsNeverBusy x.locks x.id Free

  -- The link loses no more, the lock is free, and the upload is open with the length of the file.
  pub record IsGood (e : Ends x) : Type 0 where
    pub no_fates : e.fates ≡ []
    pub free : Free e.site.locks
    pub opened : IsOpen (length o.file) (x.storage.get_upload e.site.world.store x.id)

  module _ (willing : IsWilling) where
    smaller : (n : ℕ) → n ≤ o.chunk_size → HasRoom x.server n
    smaller n small = record {
      for_chunk = λ on. omega (arith, willing.room.for_chunk on, small);
      for_body = λ on. omega (arith, willing.room.for_body on, small);
    }

    known :
        (offset : ℕ) (chunk : Bytes)
        → (headers : Dict String) × (chunk_headers (plain_uploader o) false offset chunk
            ≡ some headers)
    unfolding chunk_headers
    known offset chunk = (_, refl)

    chunk-Succeeds :
        (req : Request) (chunk : Bytes) (e : Ends x)
        → req.method ≡ "PATCH"
        → req.body ≡ some chunk
        → IsGood e
        → IsChunkOf (normalize_headers req.headers) (length (held x e))
        → 0 < length chunk
        → length chunk ≤ o.chunk_size
        → length (held x e) + length chunk ≤ length o.file
        → let (wire, e') = carry x e.fates req e in Succeeds wire × IsGood e'
    chunk-Succeeds req chunk e is_patch with_body good sent some_bytes small fits =
        let counted =
          length-acknowledged x.storage x.lawful x.server x.plain x.id e.site.world.store e.ready in
        let (success, still, free) =
          handle_request-Succeeds x.storage x.lawful x.locks x.server x.plain x.context x.id x.path
            (length o.file) Free willing.never_busy req.headers chunk e.site e.ready x.to_patch
            good.opened good.free (rw (← counted) sent) some_bytes (rw (← counted) fits)
            (smaller (length chunk) small) in
        rw good.no_fates (
          rw (is_patch, with_body) success,
          record {
            no_fates = refl;
            free = rw (is_patch, with_body) free;
            opened = rw (is_patch, with_body) still;
          },
        )

    head_says :
        (req : Request) (e : Ends x)
        → req.method ≡ "HEAD"
        → req.body ≡ none
        → IsGood e
        → Dict.get (normalize_headers req.headers) "tus-resumable" ≡ some "1.0.0"
        → let (wire, e') = carry x e.fates req e in SaysLength wire × IsGood e'
    head_says req e is_head no_body good version =
        let (says, same, locks) =
          handle_request-says x.storage x.lawful x.locks x.server x.plain x.context x.id x.path
            (length o.file) req.headers [] e.site e.ready x.to_head good.opened version
            (smaller 0 (omega arith)) in
        rw good.no_fates (
          rw (is_head, no_body) says,
          record {
            no_fates = refl;
            free = rw (is_head, no_body, locks) good.free;
            opened = rw (is_head, no_body, same) good.opened;
          },
        )

    pub link-IsReliable : IsReliable (link x) (plain_uploader o) (held x) IsGood
    unfolding patch_request head_request
    link-IsReliable = record {
      known = known;
      patch = λ kept chunk headers id e good some_bytes small fits made.
          chunk-Succeeds (patch_request (plain_uploader o) (with_request_id id headers) chunk) chunk
            e refl refl good (sent_chunk o (length (held x e)) chunk headers id made) some_bytes
            small fits;
      head = λ kept id e good.
          head_says
            (head_request (plain_uploader o) (with_request_id id (head_headers (plain_uploader o))))
            e refl refl good (sent_head o id);
      uuid4 = λ e good. good;
    }

    -- The client against the server of this package, over a link that loses nothing: where the lock
    -- is free, the server's limits leave room for a chunk, and an upload of the file's length is
    -- open of which the server has acknowledged the first `k` bytes of the file, opening the
    -- uploader and `upload`, with more fuel than bytes are left up to the stop, return the upload's
    -- URL, and the server then has the file exactly up to the stop.
    pub upload-Completes :
        (k fuel : ℕ) (stop_at : Option ℕ) (e : Ends x)
        → 0 < o.chunk_size
        → IsGood e
        → held x e ≡ take k o.file
        → k ≤ stop_offset (link x) (plain_uploader o) stop_at
        → stop_offset (link x) (plain_uploader o) stop_at < k + fuel
        → Completes
            (link x)
            (plain_uploader o)
            (held x)
            (stop_offset (link x) (plain_uploader o) stop_at)
            (run (link x) (plain_uploader o) fuel stop_at e)
    upload-Completes k fuel stop_at e positive good =
        run-Completes (link x) (plain_uploader o) (held x) IsGood (link-IsTusServer x o)
          link-IsReliable refl positive refl k fuel stop_at e good
