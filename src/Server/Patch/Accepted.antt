-- ===== src/Server/Patch/Accepted.antt =====
-- What `_plan_patch` guarantees of a request that it accepts.
use resumable_upload.Prelude.{
  ℕ, ◌+◌, ◌≤◌, ◌<◌, ◌≡◌, String, true, false, Option, none, some, Bytes, length, is_empty, arith,
}
use resumable_upload.Prelude.Dict.{Dict}
use resumable_upload.Storage.{Upload}
use resumable_upload.Server.{Server, has_expired}
use resumable_upload.Server.Checked.{accept}
use resumable_upload.Server.Patch.{PatchPlan, plan_length, plan_offset, plan_patch}

-- The length of the plan is the declared one, or the one that it commits, within the limit.
abbrev pub FitsLength : Server → Option ℕ → Option ℕ × ℕ → Type 0
FitsLength v none (commit, n) = (commit ≡ some n) × (0 < v.max_size → n ≤ v.max_size)
FitsLength v (some m) (commit, n) = (commit ≡ none) × (n ≡ m)

plan_length_fits :
    (v : Server) (declared : Option ℕ) (headers : Dict String) (r : Option ℕ × ℕ)
    → plan_length v declared headers ≡ accept r
    → FitsLength v declared r
unfolding plan_length
plan_length_fits v none headers r h = ground arith
plan_length_fits v (some m) headers r h = ground arith

plan_offset_eq :
    (offset : ℕ) (headers : Dict String) (n : ℕ)
    → plan_offset offset headers ≡ accept n
    → n ≡ offset
unfolding plan_offset
plan_offset_eq offset headers n h = ground arith

pub record IsAcceptable (v : Server) (now : ℕ) (u : Upload) (body : Bytes) (plan : PatchPlan)
    : Type 0 where
  pub live : has_expired u.expires_at now ≡ false
  pub open_upload : u.completed ≡ false
  pub not_final : is_empty u.concat_partial_ids ≡ true
  pub at_offset : plan.expected_offset ≡ u.offset
  pub moves : plan.new_offset ≡ u.offset + length body
  pub fits : plan.new_offset ≤ plan.effective_length
  pub small : 0 < v.max_chunk_size → length body ≤ v.max_chunk_size
  pub sized : FitsLength v u.upload_length (plan.commit_length, plan.effective_length)

pub plan_patch-IsAcceptable :
    (v : Server) (now : ℕ) (u : Upload) (headers : Dict String) (body : Bytes) (plan : PatchPlan)
    → plan_patch v now u headers body ≡ accept plan
    → IsAcceptable v now u body plan
unfolding plan_patch
plan_patch-IsAcceptable v now u headers body plan h = ground arith
