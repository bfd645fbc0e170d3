-- ===== src/Client/Stats.antt =====
-- resumable_upload/client/stats.py: the counters of an upload. The times and the rates, which are
-- floats, are left out.
use resumable_upload.Prelude.{ℕ, ◌+◌, ◌-◌, ◌/◌, if◌then◌else◌, ltb}

-- UploadStats
pub record UploadStats : Type 0 where
  pub total_bytes : ℕ
  pub uploaded_bytes : ℕ
  pub chunks_completed : ℕ
  pub chunks_failed : ℕ
  pub chunks_retried : ℕ

abbrev pub new_stats : ℕ → UploadStats
new_stats total = record {
  total_bytes = total;
  uploaded_bytes = 0;
  chunks_completed = 0;
  chunks_failed = 0;
  chunks_retried = 0;
}

abbrev pub total_chunks : UploadStats → ℕ
total_chunks stats = stats.chunks_completed + stats.chunks_failed

-- -(-offset // chunk_size)
abbrev pub ceiling : ℕ → ℕ → ℕ
ceiling offset chunk_size = (offset + chunk_size - 1) / chunk_size

-- The body of `_update_stats_after_chunk`.
unfoldable pub after_chunk : ℕ → ℕ → UploadStats → UploadStats
after_chunk offset chunk_size stats = record stats {
  uploaded_bytes = offset;
  chunks_completed = (if ltb 0 offset then ceiling offset chunk_size else 0);
}
