-- ===== src/Queue/Page.antt =====
-- The state of the list of downloads: loading, polling and deleting.
pub mod Deletion
use modelshelf.Common.{
  ℕ, ◌-◌, String, List, Bool, true, false, Option, none, some, not, keep, str_eq, if◌then◌else◌,
}
use Prim.Native.String
use mathlib.Core.List
use modelshelf.Task.{DownloadTask}

pub record Limits : Type 0 where
  pub max_concurrent : ℕ
  pub max_concurrent_per_source : ℕ

pub record DropTarget : Type 0 where
  pub id : String
  pub after : Bool

-- The state variables of `TasksPage`, but those of the address.
pub record QueuePage : Type 0 where
  pub loading : Bool
  pub tasks : List DownloadTask
  pub limits : Option Limits
  pub tasks_error : String
  pub info_error : String
  pub total : ℕ
  pub deleting_task_id : Option String
  pub dragged_task_id : Option String
  pub drop_target : Option DropTarget
  pub reordering_queue : Bool
  pub queue_error : String

pub record TaskListing : Type 0 where
  pub items : List DownloadTask
  pub total : ℕ

-- What a request ends with: a value, or the message of the error that it throws.
pub data Reply {ℓ} (A : Type ℓ) : Type ℓ where
  ok : A → Reply A
  failed_with : String → Reply A

unfoldable pub opened : QueuePage
opened = record {
  loading = true;
  tasks = List.[];
  limits = none;
  tasks_error = "";
  info_error = "";
  total = 0;
  deleting_task_id = none;
  dragged_task_id = none;
  drop_target = none;
  reordering_queue = false;
  queue_error = "";
}

-- The effect runs again when a filter changes; it sets `loading`.
unfoldable pub filters_effect : QueuePage → QueuePage
filters_effect st = record st { loading = true }

-- The reply to `/info`; `live` is the effect's variable `active`.
unfoldable pub info_replied : Bool → Reply (Option Limits) → QueuePage → QueuePage
info_replied false reply st = st
info_replied true (ok limits) st = record st { limits = limits }
info_replied true (failed_with message) st = record st {
  info_error = String.◌++◌ "Could not load download limits: " message;
}

-- The reply to one round of `load`.
unfoldable pub list_replied : Bool → Reply TaskListing → QueuePage → QueuePage
list_replied false reply st = st
list_replied true (ok listing) st = record st {
  tasks = listing.items;
  total = listing.total;
  tasks_error = "";
  loading = false;
}
list_replied true (failed_with message) st = record st { tasks_error = message; loading = false }

unfoldable pub without_task : String → List DownloadTask → List DownloadTask
without_task id tasks = keep (λ item. not (str_eq item.id id)) tasks

-- `deleteTask` up to its request
unfoldable pub delete_begins : DownloadTask → QueuePage → QueuePage
delete_begins task st = record st { deleting_task_id = some task.id; tasks_error = "" }

-- `deleteTask` from the reply on; the second part is its result
unfoldable pub delete_replied : DownloadTask → Reply (Unit {0}) → QueuePage → QueuePage × Bool
unfolding without_task
delete_replied task (ok _) st = (
  record st {
    tasks = without_task task.id st.tasks;
    total = st.total - 1;
    deleting_task_id = none;
  },
  true,
)
delete_replied task (failed_with message) st =
    (record st { tasks_error = message; deleting_task_id = none }, false)

-- `taskDeleted`, which the details call when they have deleted the task
unfoldable pub task_deleted : String → QueuePage → QueuePage
unfolding without_task
task_deleted id st = record st { tasks = without_task id st.tasks; total = st.total - 1 }
