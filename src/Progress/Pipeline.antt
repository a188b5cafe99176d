-- ===== src/Progress/Pipeline.antt =====
-- The states of the steps of a pipeline: what is done, the current step, what is to come.
use modelshelf.Common.{
  ℕ, zero, suc, ◌+◌, ◌-◌, ◌<◌, false, List, [], ◌∷◌, ◌++◌, Option, none, some, ◌≡◌, refl, ap,
  get_elem?, replicate, map, arith, Option-cases, inl, inr, length, if◌then◌else◌,
}
use modelshelf.Task.{DownloadTask, TaskStatus, awaiting_confirmation, http}
use modelshelf.Progress.{
  TaskStepKey, TaskStepState, TaskStepView, complete, pending, step_keys, current_task_step,
  current_index, index_of, active_state, step_state, step_views, task_steps, is_completed,
}
use modelshelf.Progress.Members.{index_of-get_elem?, current_task_step-listed}

abbrev pub states : List TaskStepView → List TaskStepState
states views = map (λ v. v.state) views

abbrev pub keys_of : List TaskStepView → List TaskStepKey
keys_of views = map (λ v. v.key) views

views_pending :
    (status : TaskStatus) (current index : ℕ) (keys : List TaskStepKey)
    → is_completed status ≡ false
    → current < index
    → states (step_views status (some current) index keys) ≡ replicate (length keys) pending
unfolding step_views
views_pending status current index [] h lt = refl
views_pending status current index (k ∷ keys) h lt =
    ground (arith, views_pending status current (suc index) keys h (omega arith))

views_split :
    (status : TaskStatus) (i index current : ℕ) (keys : List TaskStepKey)
    → is_completed status ≡ false
    → current ≡ index + i
    → i < length keys
    → states (step_views status (some current) index keys)
      ≡ replicate i complete ++ active_state status ∷ replicate (length keys - suc i) pending
unfolding step_views
views_split status i index current [] h e lt = absurd (omega arith)
views_split status zero index current (k ∷ keys) h e lt =
    ground (arith, views_pending status current (suc index) keys h (omega arith))
views_split status (suc i) index current (k ∷ keys) h e lt =
    ground (arith, views_split status i (suc index) current keys h (omega arith) (omega arith))

views_idle :
    (status : TaskStatus) (index : ℕ) (keys : List TaskStepKey)
    → states (step_views status none index keys)
      ≡ replicate (length keys) (step_state status none 0)
unfolding step_views
views_idle status index [] = refl
views_idle status index (k ∷ keys) =
    ap (λ s. step_state status none 0 ∷ s) (views_idle status (suc index) keys)

views_keys :
    (status : TaskStatus) (current : Option ℕ) (index : ℕ) (keys : List TaskStepKey)
    → keys_of (step_views status current index keys) ≡ keys
unfolding step_views
views_keys status current index [] = refl
views_keys status current index (k ∷ keys) =
    ap (λ s. k ∷ s) (views_keys status current (suc index) keys)

get_elem?-lt {ℓ} :
    {A : Type ℓ} (xs : List A) (i : ℕ) (a : A) → get_elem? xs i ≡ some a → i < length xs
get_elem?-lt [] i a h = cc
get_elem?-lt (x ∷ xs) zero a h = omega arith
get_elem?-lt (x ∷ xs) (suc i) a h = omega (arith, get_elem?-lt xs i a h)

-- Every step of the pipeline is shown once and in order, whatever the task.
pub task_steps-keys : (task : DownloadTask) → keys_of (task_steps task) ≡ step_keys task
unfolding task_steps
task_steps-keys task = views_keys task.status _ 0 (step_keys task)

current_not_completed :
    (task : DownloadTask) (k : TaskStepKey)
    → current_task_step task ≡ some k
    → is_completed task.status ≡ false
unfolding current_task_step
current_not_completed task k h = ground arith

-- With a current step, the steps before it are complete, it alone has the state of the task's
-- status, and the steps after it are pending; the current step stands in the pipeline at that
-- place. An unfinished confirmation is shown so for the HTTP provider only, which has that step.
pub task_steps-split :
    (task : DownloadTask) (k : TaskStepKey)
    → current_task_step task ≡ some k
    → (task.status ≡ awaiting_confirmation → task.provider ≡ http)
    → (i : ℕ) × (get_elem? (step_keys task) i ≡ some k)
      × (states (task_steps task)
          ≡ replicate i complete
            ++ active_state task.status ∷ replicate (length (step_keys task) - suc i) pending)
unfolding task_steps current_index
task_steps-split task k h c = elim (Option-cases (index_of k (step_keys task))) [
  | inl missing ↦ absurd (cc (current_task_step-listed task k h c))
  | inr (i, found) ↦
      let at = index_of-get_elem? k (step_keys task) i found in
      (
        i,
        at,
        rw (h, current_index)
            (rw found (
              views_split task.status i 0 i (step_keys task) (current_not_completed task k h)
                (omega arith) (get_elem?-lt (step_keys task) i k at))),
      )
]

-- With no current step, every step has the same state: complete for a completed task, pending
-- for one that waits in the queue.
pub task_steps-idle :
    (task : DownloadTask)
    → current_task_step task ≡ none
    → states (task_steps task)
      ≡ replicate (length (step_keys task)) (if is_completed task.status then complete else pending)
unfolding task_steps step_state current_index
task_steps-idle task h = rw (h, current_index) (views_idle task.status 0 (step_keys task))
