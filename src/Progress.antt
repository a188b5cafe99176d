-- ===== src/Progress.antt =====
-- packages/ui/src/taskProgress.ts: the steps of a task's pipeline and the progress of the current
-- one.
pub mod Arithmetic
pub mod Members
pub mod Pipeline
pub mod Stopped
pub mod View
pub mod Steps
use modelshelf.Common.{
  ℕ, zero, suc, ◌+◌, ◌-◌, min, ltb, leb, ◌==◌, String, List, [], ◌∷◌, Bool, true, false, ◌&&◌, ◌||◌,
  not, Option, none, some, if◌then◌else◌, is_some, get_or, truthy?, str_eq, ◌&◌,
}
use modelshelf.Task.{
  Provider, modelscope_cn, modelscope_ai, http, TaskStatus, scheduled, queued, resolving,
  downloading, verifying, awaiting_confirmation, publishing, paused, cancelled, completed, failed,
  DownloadTask,
}
use modelshelf.Format.{format_bytes, format_duration}
use modelshelf.Progress.Arithmetic.{Doubles}

pub data TaskStepKey : Type 0 where
  resolve download processing confirmation verify publish : TaskStepKey

pub data TaskStepState : Type 0 where
  pending active complete paused_at failed_at cancelled_at waiting : TaskStepState

pub record TaskStepView : Type 0 where
  pub key : TaskStepKey
  pub label : String
  pub state : TaskStepState

pub record TaskStepProgress : Type 0 where
  pub step : Option TaskStepKey
  pub label : String
  pub value : String
  pub percent : Option ℕ
  pub indeterminate : Bool
  pub show_bar : Bool

unfoldable pub step_label : TaskStepKey → String
step_label resolve = "Resolve"
step_label download = "Download"
step_label processing = "Local processing"
step_label confirmation = "Confirm"
step_label verify = "Verify"
step_label publish = "Publish"

abbrev pub is_model_scope_provider : Provider → Bool
is_model_scope_provider modelscope_cn = true
is_model_scope_provider modelscope_ai = true
is_model_scope_provider _ = false

abbrev pub is_http : Provider → Bool
is_http http = true
is_http _ = false

-- `isModelScope`
abbrev pub is_model_scope : DownloadTask → Bool
is_model_scope task = is_model_scope_provider task.provider

unfoldable pub step_keys : DownloadTask → List TaskStepKey
step_keys task =
    if is_model_scope task
    then resolve ∷ download ∷ processing ∷ verify ∷ publish ∷ []
    else if is_http task.provider
    then resolve ∷ download ∷ confirmation ∷ verify ∷ publish ∷ []
    else resolve ∷ download ∷ verify ∷ publish ∷ []

abbrev pub transfer_done : Option ℕ → ℕ → Bool
transfer_done none bytes = false
transfer_done (some total) bytes = ltb 0 total && leb total bytes

unfoldable pub has_finished_transfer : DownloadTask → Bool
has_finished_transfer task =
    is_model_scope task && transfer_done task.total_bytes task.bytes_downloaded

elapsed_since : Option ℕ → Option ℕ → String
elapsed_since none elapsed = "Elapsed time unavailable"
elapsed_since (some start) elapsed =
    let spent = get_or elapsed start - start in
    (if ltb 0 spent then format_duration (some spent) else "0s") & " elapsed"

unfoldable pub local_processing_elapsed : DownloadTask → String
unfolding elapsed_since
local_processing_elapsed task =
    elapsed_since task.local_processing_started_after_seconds task.download_elapsed_seconds

unfoldable pub stopped_step : DownloadTask → TaskStepKey
unfolding has_finished_transfer
stopped_step task =
    if truthy? task.artifact_id || leb 99 task.progress
    then publish
    else if is_some task.verification_total_bytes
        || ltb 0 (get_or task.verification_bytes_completed 0)
        || truthy? task.verification_detail
    then verify
    else if is_http task.provider && is_some task.inferred_metadata
    then confirmation
    else if leb 92 task.progress
    then verify
    else if has_finished_transfer task
    then processing
    else if truthy? task.resolved_revision || ltb 0 task.bytes_downloaded || leb 2 task.progress
    then download
    else resolve

current_step_in : TaskStatus → DownloadTask → Option TaskStepKey
unfolding stopped_step
current_step_in resolving task = some resolve
current_step_in downloading task =
    some (if has_finished_transfer task then processing else download)
current_step_in awaiting_confirmation task = some confirmation
current_step_in verifying task = some verify
current_step_in publishing task = some publish
current_step_in paused task = some (stopped_step task)
current_step_in failed task = some (stopped_step task)
current_step_in cancelled task = some (stopped_step task)
current_step_in scheduled task =
    if get_or task.resume_from_stage false then some (stopped_step task) else none
current_step_in queued task =
    if get_or task.resume_from_stage false then some (stopped_step task) else none
current_step_in completed task = none

unfoldable pub current_task_step : DownloadTask → Option TaskStepKey
unfolding current_step_in
current_task_step task = current_step_in task.status task

unfoldable pub active_state : TaskStatus → TaskStepState
active_state paused = paused_at
active_state failed = failed_at
active_state cancelled = cancelled_at
active_state scheduled = waiting
active_state queued = waiting
active_state awaiting_confirmation = waiting
active_state _ = active

abbrev pub is_completed : TaskStatus → Bool
is_completed completed = true
is_completed _ = false

abbrev pub key_number : TaskStepKey → ℕ
key_number resolve = 0
key_number download = 1
key_number processing = 2
key_number confirmation = 3
key_number verify = 4
key_number publish = 5

-- `keys.indexOf(current)`, where `none` stands for -1
unfoldable pub index_of : TaskStepKey → List TaskStepKey → Option ℕ
index_of k [] = none
index_of k (x ∷ xs) =
    let later = index_of k xs in
    if key_number x == key_number k
    then some 0
    else elim later [ none ↦ none | some i ↦ some (suc i) ]

-- `current === undefined ? -1 : keys.indexOf(current)`
unfoldable pub current_index : Option TaskStepKey → List TaskStepKey → Option ℕ
unfolding index_of
current_index none keys = none
current_index (some k) keys = index_of k keys

unfoldable pub step_state : TaskStatus → Option ℕ → ℕ → TaskStepState
unfolding active_state
step_state status none index = if is_completed status then complete else pending
step_state status (some current) index =
    if is_completed status
    then complete
    else if ltb index current
    then complete
    else if index == current
    then active_state status
    else pending

-- `keys.map((key, index) => ...)`, from the index of the first key
unfoldable pub step_views : TaskStatus → Option ℕ → ℕ → List TaskStepKey → List TaskStepView
unfolding step_state
step_views status current index [] = []
step_views status current index (k ∷ keys) =
    record { key = k; label = step_label k; state = step_state status current index }
    ∷ step_views status current (suc index) keys

unfoldable pub task_steps : DownloadTask → List TaskStepView
unfolding step_views current_task_step
task_steps task =
    let keys = step_keys task in
    step_views task.status (current_index (current_task_step task) keys) 0 keys

transferred : DownloadTask → String
transferred task = elim task.total_bytes [
  | none ↦ format_bytes task.bytes_downloaded & " transferred"
  | some total ↦
      if ltb 0 total
      then format_bytes task.bytes_downloaded & " / " & format_bytes total
      else format_bytes task.bytes_downloaded & " transferred"
]

abbrev pub same_status : TaskStatus → TaskStatus → Bool
same_status scheduled scheduled = true
same_status queued queued = true
same_status resolving resolving = true
same_status downloading downloading = true
same_status verifying verifying = true
same_status awaiting_confirmation awaiting_confirmation = true
same_status publishing publishing = true
same_status paused paused = true
same_status cancelled cancelled = true
same_status completed completed = true
same_status failed failed = true
same_status _ _ = false

state_text : TaskStepState → String
state_text pending = "pending"
state_text active = "active"
state_text complete = "complete"
state_text paused_at = "paused"
state_text failed_at = "failed"
state_text cancelled_at = "cancelled"
state_text waiting = "waiting"

-- The doubles, and how the browser writes a date given as text.
module _ (doubles : Doubles) (to_locale_string : String → String) where
  open doubles use {Double, of_ℕ, fdiv, fmul, floor}

  pub percent : ℕ → Option ℕ → Option ℕ
  percent done none = none
  percent done (some total) =
      if ltb 0 total
      then some (min 100 (floor (fmul (fdiv (of_ℕ done) (of_ℕ total)) (of_ℕ 100))))
      else none

  verified_text : ℕ → Option ℕ → String
  verified_text done none =
      if ltb 0 done then format_bytes done & " verified" else "Preparing verification…"
  verified_text done (some total) = format_bytes done & " / " & format_bytes total

  -- The branches of `taskStepProgress`, one for each value of `step`.
  progress_at : Option TaskStepKey → TaskStatus → DownloadTask → TaskStepProgress
  unfolding transferred state_text active_state local_processing_elapsed
  progress_at (some processing) status task = record {
    step = some processing;
    label = "Git LFS local processing";
    value =
        if same_status status downloading
        then "Transfer complete · " & local_processing_elapsed task
        else "Local processing "
          & state_text (active_state status)
          & " · "
          & local_processing_elapsed task;
    percent = none;
    indeterminate = same_status status downloading;
    show_bar = same_status status downloading;
  }
  progress_at (some download) status task =
      let step_percent = percent task.bytes_downloaded task.total_bytes in
      record {
        step = some download;
        label = "Download progress";
        value = transferred task;
        percent = step_percent;
        indeterminate = not (is_some step_percent) && same_status status downloading;
        show_bar = true;
      }
  progress_at (some verify) status task =
      let done : ℕ = get_or task.verification_bytes_completed 0 in
      let step_percent = percent done task.verification_total_bytes in
      record {
        step = some verify;
        label = get_or task.verification_detail "Verification progress";
        value = verified_text done task.verification_total_bytes;
        percent = step_percent;
        indeterminate = not (is_some step_percent) && same_status status verifying;
        show_bar = true;
      }
  progress_at (some resolve) status task = record {
    step = some resolve;
    label = "Resolution";
    value =
        if same_status status paused
        then "Paused"
        else if same_status status failed
        then "Failed"
        else if same_status status cancelled
        then "Cancelled"
        else "Resolving immutable revision…";
    percent = none;
    indeterminate = same_status status resolving;
    show_bar = same_status status resolving;
  }
  progress_at (some confirmation) status task = record {
    step = some confirmation;
    label = "Confirmation";
    value = if same_status status cancelled then "Cancelled" else "Waiting for user confirmation";
    percent = none;
    indeterminate = false;
    show_bar = false;
  }
  progress_at (some publish) status task = record {
    step = some publish;
    label = "Publication";
    value =
        if same_status status failed
        then "Failed"
        else if same_status status cancelled
        then "Cancelled"
        else "Publishing immutable artifact…";
    percent = none;
    indeterminate = same_status status publishing;
    show_bar = same_status status publishing;
  }
  progress_at none completed task = record {
    step = none;
    label = "Transfer summary";
    value = transferred task;
    percent = none;
    indeterminate = false;
    show_bar = false;
  }
  progress_at none scheduled task = record {
    step = none;
    label = "Scheduled";
    value =
        if truthy? task.scheduled_at
        then "Starts " & to_locale_string (get_or task.scheduled_at "")
        else "Waiting for its start time";
    percent = none;
    indeterminate = false;
    show_bar = false;
  }
  progress_at none _ task = record {
    step = none;
    label = "Queue";
    value = "Waiting for download capacity";
    percent = none;
    indeterminate = false;
    show_bar = false;
  }

  pub task_step_progress : DownloadTask → TaskStepProgress
  unfolding progress_at percent current_task_step
  task_step_progress task = progress_at (current_task_step task) task.status task
