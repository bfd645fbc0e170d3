-- ===== src/EndToEnd/Accepts.antt =====
-- The requests of the uploader that a plain server lets pass.
use resumable_upload.Prelude.{
  ℕ, ◌+◌, ◌≤◌, ◌<◌, ◌≡◌, refl, ap, String, ◌==◌, ◌&&◌, true, false, Option, none, some, [], ltb,
  eqb, Bytes, length, str, arith, or_default, lower, Bool-cases, inl, inr,
}
use resumable_upload.Prelude.Dict
use resumable_upload.Prelude.Dict.{Dict}
use resumable_upload.Prelude.Text.Numbers.{int-str, str-not_empty}
use resumable_upload.Storage.{Upload}
use resumable_upload.Server.{Server}
use resumable_upload.Server.Checked.{accept}
use resumable_upload.Server.Patch.{PatchPlan, plan_patch, plan_length, plan_offset, check_checksum}
use resumable_upload.Server.Request.{
  normalize_headers, override_method, check_sizes, gate, run_incoming_hook, check_version, admit,
}
use resumable_upload.Client.Uploader.{
  with_request_id, chunk_headers, patch_request, head_headers, head_request,
}
use resumable_upload.EndToEnd.{IsPlainServer}
use resumable_upload.EndToEnd.Link.{Options, plain_uploader}
use resumable_upload.EndToEnd.Requests.{Plain, not_post, with_version}

-- The headers of a chunk for an upload whose length is known.
pub record IsChunkOf (headers : Dict String) (offset : ℕ) : Type 0 where
  pub version : Dict.get headers "tus-resumable" ≡ some "1.0.0"
  pub content_type : Dict.get headers "content-type" ≡ some "application/offset+octet-stream"
  pub at_offset : Dict.get headers "upload-offset" ≡ some (str offset)
  pub no_length : Dict.get headers "upload-length" ≡ none
  pub no_checksum : Dict.get headers "upload-checksum" ≡ none

pub sent_chunk :
    (o : Options) (offset : ℕ) (chunk : Bytes) (headers : Dict String) (request_id : Option String)
    → chunk_headers (plain_uploader o) false offset chunk ≡ some headers
    → IsChunkOf
        (normalize_headers
          (patch_request (plain_uploader o) (with_request_id request_id headers) chunk).headers)
        offset
unfolding chunk_headers patch_request normalize_headers lower Dict.get Dict.put Dict.merge
sent_chunk o offset chunk headers none made =
    let same : or_default (chunk_headers (plain_uploader o) false offset chunk) [] ≡ headers =
      ap (λ (h : Option (Dict String)). or_default h []) made in
    rw (← same) (record {
      version = refl;
      content_type = refl;
      at_offset = refl;
      no_length = refl;
      no_checksum = refl;
    })
sent_chunk o offset chunk headers (some r) made =
    let same : or_default (chunk_headers (plain_uploader o) false offset chunk) [] ≡ headers =
      ap (λ (h : Option (Dict String)). or_default h []) made in
    rw (← same) (record {
      version = refl;
      content_type = refl;
      at_offset = refl;
      no_length = refl;
      no_checksum = refl;
    })

pub sent_head :
    (o : Options) (request_id : Option String)
    → Dict.get
        (normalize_headers
          (head_request
            (plain_uploader o)
            (with_request_id request_id (head_headers (plain_uploader o)))).headers)
        "tus-resumable"
      ≡ some "1.0.0"
unfolding head_request normalize_headers lower Dict.get Dict.put Dict.merge
sent_head o none = refl
sent_head o (some r) = refl

module _ (v : Server) where
  -- The limits of the server leave room for a body of this size.
  pub record HasRoom (size : ℕ) : Type 0 where
    pub for_chunk : (0 < v.max_chunk_size) → size ≤ v.max_chunk_size
    pub for_body : (0 < v.max_size) → size ≤ v.max_size

  within_limit :
      (limit size : ℕ) → (0 < limit → size ≤ limit) → (ltb 0 limit && ltb limit size) ≡ false
  within_limit limit size h = elim (Bool-cases (ltb 0 limit)) [
    | inl on ↦ elim (Bool-cases (ltb limit size)) [
      | inl over ↦
          let limited : 0 < limit = ground arith in
          let above : limit < size = ground arith in absurd (omega (arith, h limited, above))
      | inr fits ↦ rw (on, fits) refl
    ]
    | inr off ↦ rw off refl
  ]

  pub gate-accepts :
      (method : String) (headers : Dict String) (size : ℕ)
      → Plain method
      → HasRoom size
      → gate v method headers size ≡ accept method
  unfolding gate override_method check_sizes
  gate-accepts method headers size m room =
      let chunk = within_limit v.max_chunk_size size room.for_chunk in
      let body = within_limit v.max_size size room.for_body in
      elim (Bool-cases (method == "PATCH")) [
        | inl is_patch ↦ rw (not_post method m, is_patch, chunk, body) refl
        | inr other ↦ rw (not_post method m, other, body) refl
      ]

  pub admit-accepts :
      (plain : IsPlainServer v) (method path : String) (headers : Dict String)
      → Plain method
      → Dict.get headers "tus-resumable" ≡ some "1.0.0"
      → admit v method path headers ≡ accept tt
  unfolding admit run_incoming_hook check_version
  admit-accepts plain method path headers m version =
      rw (plain.no_request_hook, with_version method m, version) refl

  -- The plan for a chunk at the end of an upload of known length.
  abbrev pub plan_for : Upload → ℕ → Bytes → PatchPlan
  plan_for u total body = record {
    expected_offset = u.offset;
    new_offset = u.offset + length body;
    effective_length = total;
    commit_length = none;
    expires_at = u.expires_at;
  }

  pub plan_patch-accepts :
      (now : ℕ) (u : Upload) (total : ℕ) (headers : Dict String) (body : Bytes)
      → IsChunkOf headers u.offset
      → u.expires_at ≡ none
      → u.completed ≡ false
      → u.concat_partial_ids ≡ []
      → u.upload_length ≡ some total
      → u.offset + length body ≤ total
      → HasRoom (length body)
      → plan_patch v now u headers body ≡ accept (plan_for u total body)
  unfolding plan_patch plan_length plan_offset check_checksum
  plan_patch-accepts now u total headers body sent forever unfinished whole declared fits room =
      let small = within_limit v.max_chunk_size (length body) room.for_chunk in
      let same : eqb u.offset u.offset ≡ true = ground arith in
      let inside : ltb total (u.offset + length body) ≡ false = ground arith in
      rw
        (
          forever,
          unfinished,
          whole,
          declared,
          sent.content_type,
          sent.no_length,
          sent.at_offset,
          str-not_empty u.offset,
          int-str u.offset,
          same,
          sent.no_checksum,
          inside,
          small,
        )
        refl
