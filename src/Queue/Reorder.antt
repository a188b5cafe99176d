-- ===== src/Queue/Reorder.antt =====
-- Reordering the queue: by dragging a row, and by the arrow keys.
pub mod Requests
use modelshelf.Common.{
  ℕ, zero, suc, String, List, [], ◌∷◌, map, Bool, true, false, ◌||◌, not, Option, none, some,
  Ordering, get_or, find, any, get_elem?, str_eq, truthy?, if◌then◌else◌, is_some,
}
use modelshelf.Task.{DownloadTask}
use modelshelf.Queue.Page.{QueuePage, DropTarget, Reply, ok, failed_with}
use modelshelf.Queue.Order.{is_sortable, sortable_queue}

-- The body of the request to move a task next to another.
pub record MoveRequest : Type 0 where
  pub moving : String
  pub target : String
  pub after : Bool

unfoldable pub begin_queue_drag : String → QueuePage → QueuePage
begin_queue_drag id st = record st { dragged_task_id = some id; queue_error = "" }

unfoldable pub end_queue_drag : QueuePage → QueuePage
end_queue_drag st = record st { dragged_task_id = none; drop_target = none }

abbrev pub is_id : Option String → String → Bool
is_id none id = false
is_id (some s) id = str_eq s id

-- `after`: the pointer is in the lower half of the row.
unfoldable pub mark_queue_drop : String → Bool → QueuePage → QueuePage
mark_queue_drop id after st =
    if not (truthy? st.dragged_task_id) || is_id st.dragged_task_id id || st.reordering_queue
    then st
    else record st { drop_target = some (record { id = id; after = after }) }

-- The task of the row under the pointer, if it can be a target.
unfoldable pub queue_row : Option String → List DownloadTask → Option DownloadTask
queue_row id tasks = elim (find (λ t. is_id id t.id) tasks) [
  | none ↦ none
  | some t ↦ if is_sortable t.status then some t else none
]

-- `findIndex`, where `none` stands for -1
unfoldable pub index_by_id : String → List DownloadTask → Option ℕ
index_by_id id [] = none
index_by_id id (t ∷ ts) =
    let later = index_by_id id ts in
    if str_eq t.id id then some 0 else elim later [ none ↦ none | some i ↦ some (suc i) ]

-- `new Map(reordered.map(task => [task.id, task])).get(id)`: the last of the id's tasks
unfoldable pub saved_get : String → List DownloadTask → Option DownloadTask
saved_get id [] = none
saved_get id (t ∷ ts) =
    let later = saved_get id ts in
    elim later [ none ↦ if str_eq t.id id then some t else none | some u ↦ some u ]

unfoldable pub merge_saved : List DownloadTask → List DownloadTask → List DownloadTask
unfolding saved_get
merge_saved saved tasks = map (λ task. get_or (saved_get task.id saved) task) tasks

unfoldable pub reorder_replied : Reply (List DownloadTask) → QueuePage → QueuePage
unfolding merge_saved
reorder_replied (ok saved) st = record st {
  tasks = merge_saved saved st.tasks;
  reordering_queue = false;
  dragged_task_id = none;
  drop_target = none;
}
reorder_replied (failed_with message) st = record st {
  queue_error = message;
  reordering_queue = false;
  dragged_task_id = none;
  drop_target = none;
}

pub data ArrowKey : Type 0 where
  arrow_up arrow_down : ArrowKey

abbrev pub is_down : ArrowKey → Bool
is_down arrow_up = false
is_down arrow_down = true

-- `queued[index + (after ? 1 : -1)]`
unfoldable pub beside : ArrowKey → Option ℕ → List DownloadTask → Option DownloadTask
beside arrow_down (some i) queue = get_elem? queue (suc i)
beside arrow_up (some (suc i)) queue = get_elem? queue i
beside arrow_up (some zero) queue = none
beside arrow_down none queue = get_elem? queue 0
beside arrow_up none queue = none

module _ (locale_compare : String → String → Ordering) where
  request_for : String → Bool → String → QueuePage → Option MoveRequest × QueuePage
  unfolding index_by_id
  request_for target after moving st =
      let queue = sortable_queue locale_compare st.tasks in
      if not (is_some (index_by_id moving queue)) || not (any (λ t. str_eq t.id target) queue)
      then (none, st)
      else (
        some (record { moving = moving; target = target; after = after }),
        record st { reordering_queue = true; queue_error = "" },
      )

  -- `reorderQueue` up to its request; `moving` defaults to the dragged task.
  pub reorder_queue : String → Bool → Option String → QueuePage → Option MoveRequest × QueuePage
  unfolding request_for
  reorder_queue target after moving st =
      if not (truthy? moving) || is_id moving target || st.reordering_queue
      then (none, st)
      else request_for target after (get_or moving "") st

  -- The task that an arrow key moves a task past.
  pub adjacent : ArrowKey → String → List DownloadTask → Option DownloadTask
  unfolding index_by_id beside
  adjacent key id tasks =
      let queue = sortable_queue locale_compare tasks in beside key (index_by_id id queue) queue

  pub arrow_pressed : ArrowKey → String → QueuePage → Option MoveRequest × QueuePage
  unfolding adjacent reorder_queue
  arrow_pressed key id st = elim (adjacent key id st.tasks) [
    | none ↦ (none, st)
    | some u ↦ reorder_queue u.id (is_down key) (some id) st
  ]

  -- A drop on a row.
  pub dropped : Option String → Bool → QueuePage → Option MoveRequest × QueuePage
  unfolding queue_row reorder_queue
  dropped row after st = elim (queue_row row st.tasks) [
    | none ↦ (none, st)
    | some t ↦ reorder_queue t.id after st.dragged_task_id st
  ]
