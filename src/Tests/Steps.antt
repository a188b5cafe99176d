-- ===== src/Tests/Steps.antt =====
-- The pipeline of a task.
use modelshelf.Common.{
  ℕ, suc, ◌-◌, ◌≤◌, [], ◌∷◌, ◌++◌, true, none, some, ◌≡◌, refl, get_elem?, replicate, length, arith,
}
use modelshelf.Task.{modelscope_ai, huggingface, paused, queued, scheduled}
use modelshelf.Progress.{
  download, processing, verify, complete, active, pending, current_task_step, task_steps, step_keys,
  current_index, local_processing_elapsed, active_state, stopped_step, percent, task_step_progress,
}
use modelshelf.Progress.Pipeline.{states, task_steps-split}
use modelshelf.Progress.Stopped.{NothingLater, Grows, stopped_step_mono, current_task_step_kept}
use modelshelf.Progress.View.{is_running, percent_lem, task_step_progress-bar}
use modelshelf.Common.{show, ◌≤◌, ◌<◌, ltb, if◌then◌else◌}
use modelshelf.Task.{DownloadTask}
use modelshelf.Progress.{key_number, is_model_scope}
use modelshelf.Format.{format_duration}
use modelshelf.Tests.Samples.{task, fixed_point, same_text}

processing_tests :
    (current_task_step (record task { provider = modelscope_ai }) ≡ some processing)
    × (states (task_steps task) ≡ complete ∷ complete ∷ active ∷ pending ∷ pending ∷ [])
    × (local_processing_elapsed task ≡ "15s elapsed")
    × (local_processing_elapsed (record task { local_processing_started_after_seconds = none })
        ≡ "Elapsed time unavailable")
    × (local_processing_elapsed (record task { download_elapsed_seconds = some 5000 })
        ≡ "0s elapsed")
unfolding current_task_step task_steps step_keys current_index local_processing_elapsed
    format_duration show
processing_tests = (refl, refl, refl, refl, refl)

transfer_tests :
    (current_task_step (record task { bytes_downloaded = 999 }) ≡ some download)
    × (current_task_step (record task { total_bytes = none }) ≡ some download)
    × (current_task_step (record task { bytes_downloaded = 0; total_bytes = some 0 })
        ≡ some download)
    × (current_task_step (record task { provider = huggingface }) ≡ some download)
    × (current_task_step (record task { status = paused; verification_total_bytes = some 1000 })
        ≡ some verify)
unfolding current_task_step
transfer_tests = (refl, refl, refl, refl, refl)

task_steps-split_example :
    (i : ℕ) × (get_elem? (step_keys task) i ≡ some processing)
    × (states (task_steps task)
        ≡ replicate i complete
          ++ active_state task.status ∷ replicate (length (step_keys task) - suc i) pending)
unfolding current_task_step
task_steps-split_example = task_steps-split task processing refl (λ e. cc)

-- The record of the task once its verification has begun
abbrev later : DownloadTask
later = record task { verification_total_bytes = some 1000; progress = 95 }

later-Grows : Grows task later
later-Grows = record {
  same_provider = refl;
  same_metadata = refl;
  same_total = λ h. refl;
  artifact_stays = λ h. h;
  revision_stays = λ h. h;
  detail_stays = λ h. h;
  total_stays = λ h. refl;
  more_verified = omega arith;
  more_progress = omega arith;
  more_downloaded = omega arith;
}

stopped_step_mono_example :
    (key_number (stopped_step task) ≤ key_number (stopped_step later))
    × ((total : ℕ)
        → NothingLater task
        → is_model_scope task ≡ true
        → task.total_bytes ≡ some total
        → 0 < task.bytes_downloaded
        → 0 < total
        → stopped_step task ≡ (if ltb task.bytes_downloaded total then download else processing))
stopped_step_mono_example = stopped_step_mono task later later-Grows

current_task_step_kept_example :
    (current_task_step (record task { status = paused }) ≡ current_task_step task)
    × (current_task_step (record task { status = queued; resume_from_stage = some true })
        ≡ current_task_step task)
    × (current_task_step (record task { status = scheduled; resume_from_stage = some true })
        ≡ current_task_step task)
current_task_step_kept_example =
    current_task_step_kept task refl
      (record {
        no_artifact = refl;
        early = omega arith;
        no_total = refl;
        no_verified = refl;
        no_detail = refl;
      })
      refl (omega arith)

percent_lem_example :
    (p q : ℕ) × (percent fixed_point same_text 29 (some 100) ≡ some p)
    × (percent fixed_point same_text 100 (some 100) ≡ some q)
    × (p ≤ q)
    × (q ≤ 100)
    × (100 ≤ 100 → q ≡ 100)
percent_lem_example = percent_lem fixed_point same_text 100 29 100 (omega arith) (omega arith)

task_step_progress-bar_example :
    let view = task_step_progress fixed_point same_text task in
    (view.indeterminate ≡ true
      → (view.show_bar ≡ true) × (view.percent ≡ none) × (is_running task.status ≡ true))
    × ((p : ℕ) → view.percent ≡ some p → p ≤ 100)
task_step_progress-bar_example = task_step_progress-bar fixed_point same_text task
