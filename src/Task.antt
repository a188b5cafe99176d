-- ===== src/Task.antt =====
-- packages/ui/src/types.ts: a download task as the server reports it, and its provider and status.
-- A field that may be `undefined` is an `Option`. Bytes, counts and the percentage are whole
-- numbers; a number of seconds or of bytes per second, which may have a fraction, is counted in
-- thousandths.
use modelshelf.Common.{ℕ, String, Bool, List, Option}

pub data Provider : Type 0 where
  huggingface modelscope_cn modelscope_ai github_release kaggle http filesystem : Provider

pub data TaskStatus : Type 0 where
  scheduled queued resolving downloading verifying awaiting_confirmation : TaskStatus
  publishing paused cancelled completed failed : TaskStatus

pub TaskStatus-discrete : Discrete TaskStatus
TaskStatus-discrete = hlevel

pub data Confidence : Type 0 where
  low medium high : Confidence

pub record InferredMetadata : Type 0 where
  pub name : String
  pub version : String
  pub format : Option String
  pub archive : Bool
  pub confidence : Confidence
  pub notes : List String

pub data DeduplicationReason : Type 0 where
  same_artifact same_task : DeduplicationReason

pub record DownloadTask : Type 0 where
  pub id : String
  pub provider : Provider
  pub source_id : String
  pub requested_revision : String
  pub disable_mirror : Option Bool
  pub mirror_url : Option String
  pub disable_proxy : Option Bool
  pub scheduled_at : Option String
  pub queue_position : Option ℕ
  pub resume_from_stage : Option Bool
  pub selected_paths : Option (List String)
  pub artifact_alias : Option String
  pub resolved_revision : Option String
  pub status : TaskStatus
  pub progress : ℕ
  pub artifact_total_bytes : Option ℕ
  pub bytes_downloaded : ℕ
  pub total_bytes : Option ℕ
  pub reused_bytes : Option ℕ
  pub reused_file_count : Option ℕ
  pub hardlink_bytes : Option ℕ
  pub hardlink_file_count : Option ℕ
  pub reflink_bytes : Option ℕ
  pub reflink_file_count : Option ℕ
  pub copy_bytes : Option ℕ
  pub copy_file_count : Option ℕ
  pub reuse_source_artifact_ids : Option (List String)
  pub instantaneous_bytes_per_second : Option ℕ
  pub average_bytes_per_second : Option ℕ
  pub eta_seconds : Option ℕ
  pub download_elapsed_seconds : Option ℕ
  pub local_processing_started_after_seconds : Option ℕ
  pub verification_bytes_completed : Option ℕ
  pub verification_total_bytes : Option ℕ
  pub verification_instantaneous_bytes_per_second : Option ℕ
  pub verification_average_bytes_per_second : Option ℕ
  pub verification_eta_seconds : Option ℕ
  pub verification_elapsed_seconds : Option ℕ
  pub verification_detail : Option String
  pub created_at : String
  pub updated_at : String
  pub error : Option String
  pub artifact_id : Option String
  pub inferred_metadata : Option InferredMetadata
  pub deduplicated : Option Bool
  pub deduplication_reason : Option DeduplicationReason
