-- ===== src/Queue/Order.antt =====
-- The order of the tasks that can be reordered.
pub mod Sorted
use modelshelf.Common.{
  ℕ, String, List, [], ◌∷◌, Bool, true, false, Option, get_or, Ordering, compare, if◌then◌else◌,
  keep,
}
use modelshelf.Task.{TaskStatus, queued, paused, DownloadTask}

-- `sortableQueueStatuses`
abbrev pub is_sortable : TaskStatus → Bool
is_sortable queued = true
is_sortable paused = true
is_sortable _ = false

abbrev pub max_safe_integer : ℕ
max_safe_integer = 9007199254740991

abbrev pub position : DownloadTask → ℕ
position task = get_or task.queue_position max_safe_integer

abbrev pub not_after : Ordering → Bool
not_after Ordering.gt = false
not_after _ = true

-- How the browser's locale orders two texts.
module _ (locale_compare : String → String → Ordering) where
  -- The comparator of `sort` is not positive: by position, then by time of creation.
  pub in_order : DownloadTask → DownloadTask → Bool
  in_order left right = elim (compare (position left) (position right)) [
    | Ordering.lt ↦ true
    | Ordering.gt ↦ false
    | Ordering.eq ↦ not_after (locale_compare left.created_at right.created_at)
  ]

  -- `sort` is stable.
  pub place : DownloadTask → List DownloadTask → List DownloadTask
  place t [] = t ∷ []
  place t (u ∷ us) = if in_order t u then t ∷ u ∷ us else u ∷ place t us

  pub sort : List DownloadTask → List DownloadTask
  unfolding place in_order
  sort [] = []
  sort (t ∷ ts) = place t (sort ts)

  -- `tasks.filter(...).sort(...)` of `reorderQueue` and of the arrow keys
  unfoldable pub sortable_queue : List DownloadTask → List DownloadTask
  unfolding sort
  sortable_queue tasks = sort (keep (λ t. is_sortable t.status) tasks)
