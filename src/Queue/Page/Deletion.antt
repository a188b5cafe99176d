-- ===== src/Queue/Page/Deletion.antt =====
-- Deleting a download from the list.
use modelshelf.Common.{
  String, List, [], ◌∷◌, Bool, true, false, none, ◌≡◌, refl, str_eq, if◌then◌else◌, any, arith,
  eq_iff, ◌-◌,
}
use modelshelf.Task.{DownloadTask}
use modelshelf.Queue.Page.{QueuePage, ok, failed_with, without_task, delete_begins, delete_replied}

abbrev pub lists : String → List DownloadTask → Bool
lists id tasks = any (λ t. str_eq t.id id) tasks

lists-without_task :
    (id j : String) (tasks : List DownloadTask)
    → lists j (without_task id tasks) ≡ (if str_eq id j then false else lists j tasks)
unfolding without_task
lists-without_task id j [] = ground arith
lists-without_task id j (t ∷ ts) =
    ground (arith, eq_iff t.id id, eq_iff t.id j, eq_iff id j, lists-without_task id j ts)

-- A deletion that succeeds takes exactly the tasks with the id away from the list, takes one off the
-- total, which stops at 0, and returns true; one that fails keeps the list and the total, shows its
-- message and returns false; either way no deletion is under way afterwards.
pub delete_replied-lists :
    (task : DownloadTask) (u : Unit {0}) (message : String) (st : QueuePage)
    → let (done, deleted) = delete_replied task (ok u) (delete_begins task st) in
      let (kept, result) = delete_replied task (failed_with message) (delete_begins task st) in
      (deleted ≡ true)
      × (done.deleting_task_id ≡ none)
      × ((j : String) → lists j done.tasks ≡ (if str_eq task.id j then false else lists j st.tasks))
      × (done.total ≡ st.total - 1)
      × (result ≡ false)
      × (kept.deleting_task_id ≡ none)
      × (kept.tasks ≡ st.tasks)
      × (kept.total ≡ st.total)
      × (kept.tasks_error ≡ message)
unfolding delete_replied delete_begins
delete_replied-lists task u message st =
    (refl, refl, λ j. lists-without_task task.id j st.tasks, refl, refl, refl, refl, refl, refl)
