-- ===== src/Tests/Samples.antt =====
-- A task as the repository's own tests build it (tests/ui/taskProgress.test.ts), and values of the
-- interfaces that the components take.
use modelshelf.Common.{ℕ, String, ◌*◌, ◌/◌, ◌≤◌, ◌<◌, ◌≡◌, none, some, arith, Ordering}
use modelshelf.Task.{DownloadTask, modelscope_cn, downloading}
use modelshelf.Progress.Arithmetic.{Doubles}

abbrev pub task : DownloadTask
task = record {
  id = "test";
  provider = modelscope_cn;
  source_id = "owner/model";
  requested_revision = "master";
  disable_mirror = none;
  mirror_url = none;
  disable_proxy = none;
  scheduled_at = none;
  queue_position = none;
  resume_from_stage = none;
  selected_paths = none;
  artifact_alias = none;
  resolved_revision = none;
  status = downloading;
  progress = 89;
  artifact_total_bytes = none;
  bytes_downloaded = 1000;
  total_bytes = some 1000;
  reused_bytes = none;
  reused_file_count = none;
  hardlink_bytes = none;
  hardlink_file_count = none;
  reflink_bytes = none;
  reflink_file_count = none;
  copy_bytes = none;
  copy_file_count = none;
  reuse_source_artifact_ids = none;
  instantaneous_bytes_per_second = none;
  average_bytes_per_second = none;
  eta_seconds = none;
  download_elapsed_seconds = some 20000;
  local_processing_started_after_seconds = some 5000;
  verification_bytes_completed = none;
  verification_total_bytes = none;
  verification_instantaneous_bytes_per_second = none;
  verification_average_bytes_per_second = none;
  verification_eta_seconds = none;
  verification_elapsed_seconds = none;
  verification_detail = none;
  created_at = "2026-09-21T00:00:00Z";
  updated_at = "2026-09-21T00:00:20Z";
  error = none;
  artifact_id = none;
  inferred_metadata = none;
  deduplicated = none;
  deduplication_reason = none;
}

-- Fixed-point numbers with three decimals.
pub fixed_div_mono : (a b d : ℕ) → 0 < d → a ≤ b → a * 1000 / (d * 1000) ≤ b * 1000 / (d * 1000)
fixed_div_mono a b d h l = grind arith

pub fixed_mul_mono : (a b d : ℕ) → a ≤ b → a * (d * 1000) / 1000 ≤ b * (d * 1000) / 1000
fixed_mul_mono a b d l = grind arith

pub fixed_div_self : (d : ℕ) → 0 < d → d * 1000 * 1000 / (d * 1000) ≡ 1 * 1000
fixed_div_self d h = grind arith

pub fixed_mul_one : (d : ℕ) → 1 * 1000 * (d * 1000) / 1000 ≡ d * 1000
fixed_mul_one d = omega arith

pub fixed_of_ℕ-mono : (a b : ℕ) → a ≤ b → a * 1000 ≤ b * 1000
fixed_of_ℕ-mono a b l = omega arith

pub fixed_floor_mono : (a b : ℕ) → a ≤ b → a / 1000 ≤ b / 1000
fixed_floor_mono a b l = grind arith

pub fixed_floor-of_ℕ : (n : ℕ) → n * 1000 / 1000 ≡ n
fixed_floor-of_ℕ n = omega arith

abbrev pub fixed_point : Doubles
fixed_point = record {
  Double = ℕ;
  of_ℕ = λ n. n * 1000;
  fdiv = λ a b. a * 1000 / b;
  fmul = λ a b. a * b / 1000;
  floor = λ a. a / 1000;
  Below = ◌≤◌;
  of_ℕ-mono = fixed_of_ℕ-mono;
  fdiv-mono = fixed_div_mono;
  fmul-mono = fixed_mul_mono;
  floor-mono = fixed_floor_mono;
  fdiv_self = fixed_div_self;
  fmul_one = fixed_mul_one;
  floor-of_ℕ = fixed_floor-of_ℕ;
}

abbrev pub same_text : String → String
same_text s = s

-- An order of texts that finds all of them equal.
abbrev pub no_order : String → String → Ordering
no_order s t = Ordering.eq
