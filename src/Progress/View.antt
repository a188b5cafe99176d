-- ===== src/Progress/View.antt =====
-- The progress bar of the current step.
use modelshelf.Common.{
  ℕ, ◌≤◌, ◌<◌, String, true, false, none, some, Option, ◌≡◌, ap, ◌∙◌, min, arith, Bool, lt→ltb,
}
use modelshelf.Task.{
  DownloadTask, TaskStatus, scheduled, resolving, downloading, verifying, publishing,
}
use modelshelf.Progress.{
  TaskStepKey, resolve, download, processing, confirmation, verify, publish, percent,
  task_step_progress, progress_at, current_task_step,
}
use modelshelf.Progress.Arithmetic.{Doubles}

-- The statuses in which the server works on the current step.
abbrev pub is_running : TaskStatus → Bool
is_running resolving = true
is_running downloading = true
is_running verifying = true
is_running publishing = true
is_running _ = false

module _ (doubles : Doubles) where
  open doubles use {
    Double, of_ℕ, fdiv, fmul, floor, fdiv-mono, fmul-mono, floor-mono, of_ℕ-mono, fdiv_self,
    fmul_one, floor-of_ℕ,
  }

  ratio : ℕ → ℕ → ℕ
  ratio done total = floor (fmul (fdiv (of_ℕ done) (of_ℕ total)) (of_ℕ 100))

  ratio_mono : (a b total : ℕ) → 0 < total → a ≤ b → ratio a total ≤ ratio b total
  unfolding ratio
  ratio_mono a b total h le =
      floor-mono _ _ (fmul-mono _ _ 100 (fdiv-mono _ _ total h (of_ℕ-mono a b le)))

  ratio_self : (total : ℕ) → 0 < total → ratio total total ≡ 100
  unfolding ratio
  ratio_self total h =
      ap (λ x. floor (fmul x (of_ℕ 100))) (fdiv_self total h)
      ∙ ap floor (fmul_one 100)
      ∙ floor-of_ℕ 100

  module _ (locale : String → String) where
    -- A percentage is shown for a known total only, never passes 100, never falls while more is
    -- transferred, and is 100 once everything is.
    pub percent_lem :
        (total a b : ℕ)
        → 0 < total
        → a ≤ b
        → (p q : ℕ) × (percent doubles locale a (some total) ≡ some p)
          × (percent doubles locale b (some total) ≡ some q)
          × (p ≤ q)
          × (q ≤ 100)
          × (total ≤ b → q ≡ 100)
    unfolding percent ratio
    percent_lem total a b h le = (
      min 100 (ratio a total),
      min 100 (ratio b total),
      rw (lt→ltb 0 total h),
      rw (lt→ltb 0 total h),
      omega (arith, ratio_mono a b total h le),
      omega arith,
      λ done. omega (arith, ratio_mono total b total h done, ratio_self total h),
    )

    percent-le :
        (done : ℕ) (total : Option ℕ) (p : ℕ) → percent doubles locale done total ≡ some p → p ≤ 100
    unfolding percent
    percent-le done total p h = ground arith

    progress_at-bar :
        (step : Option TaskStepKey) (status : TaskStatus) (task : DownloadTask)
        → let view = progress_at doubles locale step status task in
          (view.indeterminate ≡ true
            → (view.show_bar ≡ true) × (view.percent ≡ none) × (is_running status ≡ true))
          × ((p : ℕ) → view.percent ≡ some p → p ≤ 100)
    unfolding progress_at
    progress_at-bar (some resolve) status task = (λ h. ground arith, λ p h. cc)
    progress_at-bar (some download) status task = (λ h. ground arith, λ p h. percent-le _ _ p h)
    progress_at-bar (some processing) status task = (λ h. ground arith, λ p h. cc)
    progress_at-bar (some confirmation) status task = (λ h. cc, λ p h. cc)
    progress_at-bar (some verify) status task = (λ h. ground arith, λ p h. percent-le _ _ p h)
    progress_at-bar (some publish) status task = (λ h. ground arith, λ p h. cc)
    progress_at-bar none scheduled task = (λ h. cc, λ p h. cc)
    progress_at-bar none _ task = (λ h. cc, λ p h. cc)

    -- A bar that moves without a percentage is shown only while the server works on the step,
    -- is then visible, and shows no percentage; a percentage never passes 100.
    pub task_step_progress-bar :
        (task : DownloadTask)
        → let view = task_step_progress doubles locale task in
          (view.indeterminate ≡ true
            → (view.show_bar ≡ true) × (view.percent ≡ none) × (is_running task.status ≡ true))
          × ((p : ℕ) → view.percent ≡ some p → p ≤ 100)
    unfolding task_step_progress
    task_step_progress-bar task = progress_at-bar (current_task_step task) task.status task
