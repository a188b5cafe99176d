-- ===== src/Progress/Members.antt =====
-- The current step of a task is one of the steps of its pipeline.
use modelshelf.Common.{ℕ, zero, suc, true, List, [], ◌∷◌, some, ◌≡◌, is_some, get_elem?, arith}
use modelshelf.Task.{DownloadTask, awaiting_confirmation, http}
use modelshelf.Progress.{
  TaskStepKey, step_keys, current_task_step, stopped_step, index_of, key_number,
}

key_number_injective : (a b : TaskStepKey) → key_number a ≡ key_number b → a ≡ b
key_number_injective a b h = ground arith

pub index_of-get_elem? :
    (k : TaskStepKey) (keys : List TaskStepKey) (i : ℕ)
    → index_of k keys ≡ some i
    → get_elem? keys i ≡ some k
unfolding index_of
index_of-get_elem? k [] i h = cc
index_of-get_elem? k (x ∷ xs) zero h = ground (arith, key_number_injective x k)
index_of-get_elem? k (x ∷ xs) (suc i) h = ground (arith, index_of-get_elem? k xs i)

pub stopped_step-listed :
    (task : DownloadTask) → is_some (index_of (stopped_step task) (step_keys task)) ≡ true
unfolding index_of step_keys stopped_step
stopped_step-listed task = ground arith

pub current_task_step-listed :
    (task : DownloadTask) (k : TaskStepKey)
    → current_task_step task ≡ some k
    → (task.status ≡ awaiting_confirmation → task.provider ≡ http)
    → is_some (index_of k (step_keys task)) ≡ true
unfolding index_of step_keys current_task_step
current_task_step-listed task k h c = ground arith
