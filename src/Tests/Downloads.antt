-- ===== src/Tests/Downloads.antt =====
-- The list of downloads.
use mathlib.Core.List.{Perm}
use modelshelf.Common.{
  ◌*◌, String, [], ◌∷◌, true, false, none, some, ◌≡◌, ◌≢◌, ◌↔◌, Ordering, refl, is_some, keep,
  str_eq, truthy, if◌then◌else◌,
}
use modelshelf.Task.{DownloadTask, github_release, failed, queued, paused}
use modelshelf.Queue.Filters.{
  only, fraction, JsNumber, page_size, q, provider, status_filter, offset, update_filters,
}
use modelshelf.Queue.Filters.Roundtrip.{Reads, update_filters-Reads}
use modelshelf.Common.{◌-◌}
use modelshelf.Queue.Page.{failed_with, QueuePage, ok, delete_begins, delete_replied}
use modelshelf.Queue.Page.Deletion.{lists, delete_replied-lists}
use modelshelf.Queue.Order.{is_sortable, sortable_queue}
use modelshelf.Queue.Order.Sorted.{Queued, sortable_queue-Queued}
use modelshelf.Queue.Cells.{compact}
use modelshelf.Queue.View.{updated_piece, row_cells}
use modelshelf.Queue.View.Complete.{count, row_cells-count}
use modelshelf.Queue.Reorder.{MoveRequest, reorder_queue}
use modelshelf.Queue.Reorder.Requests.{reorder_queue_iff, InQueue}
use modelshelf.Tests.Samples.{task, no_order}

-- A reader of the decimal texts that the page writes, at the one that is tested.
abbrev fifty : String → JsNumber
fifty t = fraction 50 1

update_filters-Reads_example :
    Reads fifty
      (update_filters
        (q "qwen"
          ∷ provider (some github_release)
          ∷ status_filter (only failed)
          ∷ offset (1 * page_size)
          ∷ [])
        [])
      "qwen"
      (some github_release)
      (only failed)
      (1 * page_size)
update_filters-Reads_example =
    update_filters-Reads fifty [] "qwen" (some github_release) (only failed) 1 refl

abbrev first : DownloadTask
first = record task { id = "a"; status = queued; queue_position = some 0 }

abbrev second : DownloadTask
second = record task { id = "b"; status = paused; queue_position = some 1 }

abbrev page : QueuePage
page = record {
  loading = false;
  tasks = task ∷ second ∷ first ∷ [];
  limits = none;
  tasks_error = "";
  info_error = "";
  total = 3;
  deleting_task_id = none;
  dragged_task_id = none;
  drop_target = none;
  reordering_queue = false;
  queue_error = "";
}

order_tests : sortable_queue no_order (task ∷ second ∷ first ∷ []) ≡ first ∷ second ∷ []
unfolding sortable_queue
order_tests = refl

delete_replied-lists_example :
    let (done, deleted) = delete_replied second (ok tt) (delete_begins second page) in
    let (kept, result) = delete_replied second (failed_with "no") (delete_begins second page) in
    (deleted ≡ true)
    × (done.deleting_task_id ≡ none)
    × ((j : String)
        → lists j done.tasks ≡ (if str_eq second.id j then false else lists j page.tasks))
    × (done.total ≡ page.total - 1)
    × (result ≡ false)
    × (kept.deleting_task_id ≡ none)
    × (kept.tasks ≡ page.tasks)
    × (kept.total ≡ page.total)
    × (kept.tasks_error ≡ "no")
delete_replied-lists_example = delete_replied-lists second tt "no" page

no_order_asym : (a b : String) → no_order a b ≡ Ordering.gt → no_order b a ≢ Ordering.gt
no_order_asym a b h = cc

sortable_queue-Queued_example :
    Queued no_order (sortable_queue no_order page.tasks)
    × Perm (sortable_queue no_order page.tasks) (keep (λ t. is_sortable t.status) page.tasks)
sortable_queue-Queued_example = sortable_queue-Queued no_order no_order_asym page.tasks

reorder_queue_iff_example :
    ((is_some (reorder_queue no_order "a" true (some "b") page).0 ≡ true) ↔ (
      (truthy "b" ≡ true)
      × (◌≢◌ {A = String} "b" "a")
      × (page.reordering_queue ≡ false)
      × InQueue no_order "b" page
      × InQueue no_order "a" page))
    × ((r : MoveRequest)
        → (reorder_queue no_order "a" true (some "b") page).0 ≡ some r
        → (r ≡ record { moving = "b"; target = "a"; after = true })
          × ((reorder_queue no_order "a" true (some "b") page).1
              ≡ record page { reordering_queue = true; queue_error = "" }))
    × ((reorder_queue no_order "a" true (some "b") page).0 ≡ none
        → (reorder_queue no_order "a" true (some "b") page).1 ≡ page)
reorder_queue_iff_example = reorder_queue_iff no_order "a" "b" true page

row_cells-count_example : count updated_piece (row_cells compact paused) ≡ 1
row_cells-count_example = row_cells-count compact paused updated_piece
