-- ===== src/Queue/Cells/Agreement.antt =====
-- The list and the details say the same of a task.
use modelshelf.Common.{
  String, Bool, true, false, ◌&◌, if◌then◌else◌, ◌≡◌, refl, ap, sym, ◌∙◌, arith, ◌⊎◌, inl, inr,
}
use modelshelf.Common.Scan.{first}
use modelshelf.Task.{
  TaskStatus, scheduled, queued, resolving, awaiting_confirmation, publishing, paused, cancelled,
  completed, failed, downloading, verifying, DownloadTask,
}
use modelshelf.Format.Duration.{format_duration}
use modelshelf.Progress.{TaskStepProgress, current_task_step, task_step_progress}
use modelshelf.Progress.Arithmetic.{Doubles}
use modelshelf.Progress.Steps.{step-task_step_progress, step-downloading, step-verifying}
use modelshelf.Fields.Texts.{status_text}
use modelshelf.TaskDetail.Facts.{
  is_processing, is_verification, label_at, eta, eta_at, metrics, status_label,
}
use modelshelf.Queue.Cells.{live_at, badge_at, rate_and_eta, badge_label, live_metrics}

-- `toUpperCase` is the browser's.
module _ (to_upper_case : String → String) (upper-l : to_upper_case "l" ≡ "L") where
  local_processing_text : status_text to_upper_case "local_processing" ≡ "Local processing"
  unfolding status_text first
  local_processing_text = ap (λ t. t & "ocal processing") upper-l

  labels_at :
      (status : TaskStatus) (on_disk : Bool)
      → badge_at to_upper_case status on_disk ≡ label_at status on_disk
  labels_at status on_disk = ground (arith, local_processing_text)

module _ (doubles : Doubles) (to_locale_string : String → String) (task : DownloadTask) where
  abbrev pub activity : TaskStepProgress
  activity = task_step_progress doubles to_locale_string task

  labels :
      (to_upper_case : String → String)
      → to_upper_case "l" ≡ "L"
      → badge_label to_upper_case task ≡ status_label task activity
  unfolding badge_label status_label
  labels to_upper_case upper-l =
      labels_at to_upper_case upper-l task.status (is_processing (current_task_step task))
      ∙ ap (λ k. label_at task.status (is_processing k))
          (sym (step-task_step_progress doubles to_locale_string task))

  downloads : task.status ≡ downloading → is_verification activity.step ≡ false
  downloads s =
      ap is_verification
        (step-task_step_progress doubles to_locale_string task ∙ step-downloading task s)
      ∙ ground arith

  verifies : task.status ≡ verifying → is_verification activity.step ≡ true
  verifies s =
      ap is_verification
        (step-task_step_progress doubles to_locale_string task ∙ step-verifying task s)

  eta_downloading :
      task.status ≡ downloading
      → eta to_locale_string task activity ≡ format_duration task.eta_seconds
  unfolding eta eta_at
  eta_downloading s =
      ap (λ st. eta_at to_locale_string st task activity) s
      ∙ ap (λ b. format_duration (if b then task.verification_eta_seconds else task.eta_seconds))
          (downloads s)

  eta_verifying :
      task.status ≡ verifying
      → eta to_locale_string task activity ≡ format_duration task.verification_eta_seconds
  unfolding eta eta_at
  eta_verifying s =
      ap (λ st. eta_at to_locale_string st task activity) s
      ∙ ap (λ b. format_duration (if b then task.verification_eta_seconds else task.eta_seconds))
          (verifies s)

  metrics_downloading :
      (rate rest : String)
      → task.status ≡ downloading
      → live_at to_locale_string downloading task ≡ rate_and_eta rate rest
      → (rate ≡ (metrics task activity).speed)
        × (rest ≡ "ETA " & eta to_locale_string task activity)
  unfolding metrics
  metrics_downloading rate rest s h = rw (downloads s, eta_downloading s) (ground (arith, h))

  metrics_verifying :
      (rate rest : String)
      → task.status ≡ verifying
      → live_at to_locale_string verifying task ≡ rate_and_eta rate rest
      → (rate ≡ "Verify " & (metrics task activity).speed)
        × (rest ≡ "ETA " & eta to_locale_string task activity)
  unfolding metrics
  metrics_verifying rate rest s h = rw (verifies s, eta_verifying s) (ground (arith, h))

  shown_at :
      (status : TaskStatus) (rate rest : String)
      → task.status ≡ status
      → live_at to_locale_string status task ≡ rate_and_eta rate rest
      → (rest ≡ "ETA " & eta to_locale_string task activity)
        × ((rate ≡ (metrics task activity).speed)
            ⊎ (rate ≡ "Verify " & (metrics task activity).speed))
  shown_at downloading rate rest s h =
      let (speed, remaining) = metrics_downloading rate rest s h in (remaining, inl speed)
  shown_at verifying rate rest s h =
      let (speed, remaining) = metrics_verifying rate rest s h in (remaining, inr speed)
  shown_at scheduled rate rest s h = ground (arith, h)
  shown_at queued rate rest s h = ground (arith, h)
  shown_at resolving rate rest s h = ground (arith, h)
  shown_at awaiting_confirmation rate rest s h = ground (arith, h)
  shown_at publishing rate rest s h = ground (arith, h)
  shown_at paused rate rest s h = ground (arith, h)
  shown_at cancelled rate rest s h = ground (arith, h)
  shown_at completed rate rest s h = ground (arith, h)
  shown_at failed rate rest s h = ground (arith, h)

  -- The list and the details say the same of a task: they always have the same text for its status,
  -- if "L" is the upper case of "l"; and
  -- where the list shows a rate and a remaining time, these are the speed and the remaining time
  -- that the details show, of the download or of the verification.
  pub live_metrics-metrics :
      (to_upper_case : String → String)
      → to_upper_case "l" ≡ "L"
      → (badge_label to_upper_case task ≡ status_label task activity)
        × ((rate rest : String)
            → live_metrics to_locale_string task ≡ rate_and_eta rate rest
            → (rest ≡ "ETA " & eta to_locale_string task activity)
              × ((rate ≡ (metrics task activity).speed)
                  ⊎ (rate ≡ "Verify " & (metrics task activity).speed)))
  unfolding live_metrics
  live_metrics-metrics to_upper_case upper-l =
      (labels to_upper_case upper-l, λ rate rest h. shown_at task.status rate rest refl h)
