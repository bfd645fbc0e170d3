-- ===== src/EndToEnd/Delivers.antt =====
-- The uploader against the server, from its opening to its end.
use resumable_upload.Prelude.{ℕ, ◌+◌, ◌≤◌, ◌<◌, ◌≡◌, refl, Option, take}
use resumable_upload.Client.Uploader.Delivers.{run, run-Finishes}
use resumable_upload.Client.Uploader.Uploads.{Finishes}
use resumable_upload.Client.Uploader.Upload.{stop_offset}
use resumable_upload.EndToEnd.Lawful.{link-IsTusServer}
use resumable_upload.EndToEnd.Link.{Options, plain_uploader, Setup, Ends, held, link}

-- The client against the server of this package, over a link that may lose any request and any
-- answer: where the server has acknowledged the first `k` bytes of the file, opening the uploader
-- and `upload` end with more fuel than there are bytes left up to the stop; if they return, the
-- server holds exactly the file up to the stop; if they raise, it holds a first part of the file.
pub upload_delivers :
    (x : Setup) (o : Options) (k fuel : ℕ) (stop_at : Option ℕ) (e : Ends x)
    → 0 < o.chunk_size
    → held x e ≡ take k o.file
    → k ≤ stop_offset (link x) (plain_uploader o) stop_at
    → stop_offset (link x) (plain_uploader o) stop_at < k + fuel
    → Finishes
        (link x)
        (plain_uploader o)
        (held x)
        (stop_offset (link x) (plain_uploader o) stop_at)
        (run (link x) (plain_uploader o) fuel stop_at e)
upload_delivers x o k fuel stop_at e positive =
    run-Finishes (link x) (plain_uploader o) (held x) (link-IsTusServer x o) refl positive refl k
      fuel stop_at e
