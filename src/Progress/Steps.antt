-- ===== src/Progress/Steps.antt =====
-- The step that the progress is about.
use modelshelf.Common.{String, Option, none, some, ◌≡◌, refl, arith, if◌then◌else◌}
use modelshelf.Task.{DownloadTask, TaskStatus, downloading, verifying}
use modelshelf.Progress.{
  TaskStepKey, resolve, download, processing, confirmation, verify, publish, progress_at,
  task_step_progress, current_task_step, has_finished_transfer,
}
use modelshelf.Progress.Arithmetic.{Doubles}

module _ (doubles : Doubles) (to_locale_string : String → String) where
  step-progress_at :
      (k : Option TaskStepKey) (status : TaskStatus) (task : DownloadTask)
      → (progress_at doubles to_locale_string k status task).step ≡ k
  unfolding progress_at
  step-progress_at none status task = ground arith
  step-progress_at (some resolve) status task = refl
  step-progress_at (some download) status task = refl
  step-progress_at (some processing) status task = refl
  step-progress_at (some confirmation) status task = refl
  step-progress_at (some verify) status task = refl
  step-progress_at (some publish) status task = refl

  pub step-task_step_progress :
      (task : DownloadTask)
      → (task_step_progress doubles to_locale_string task).step ≡ current_task_step task
  unfolding task_step_progress
  step-task_step_progress task = step-progress_at (current_task_step task) task.status task

pub step-downloading :
    (task : DownloadTask)
    → task.status ≡ downloading
    → current_task_step task ≡ some (if has_finished_transfer task then processing else download)
unfolding current_task_step
step-downloading task s = rw s refl

pub step-verifying :
    (task : DownloadTask) → task.status ≡ verifying → current_task_step task ≡ some verify
unfolding current_task_step
step-verifying task s = rw s refl
