-- ===== src/Queue/Reorder/Requests.antt =====
-- When a move is requested, and what its reply changes.
use modelshelf.Common.{
  ℕ, zero, suc, String, List, [], ◌∷◌, map, Bool, true, false, none, some, ◌≡◌, refl, ◌≢◌, ◌↔◌,
  Option-cases, inl, inr, Ordering, get_or, any, get_elem?, str_eq, truthy, is_some, arith, eq_iff,
}
use modelshelf.Task.{DownloadTask}
use modelshelf.Queue.Page.{QueuePage, Reply, ok, failed_with}
use modelshelf.Queue.Order.{sortable_queue}
use modelshelf.Queue.Reorder.{
  MoveRequest, index_by_id, saved_get, merge_saved, reorder_replied, reorder_queue, arrow_up,
  arrow_down, arrow_pressed,
}

saved_get-id :
    (id : String) (saved : List DownloadTask) (t : DownloadTask)
    → saved_get id saved ≡ some t
    → t.id ≡ id
unfolding saved_get
saved_get-id id [] t h = cc
saved_get-id id (u ∷ us) t h = ground (arith, eq_iff u.id id, saved_get-id id us t)

merge_id :
    (saved : List DownloadTask) (t : DownloadTask) → (get_or (saved_get t.id saved) t).id ≡ t.id
merge_id saved t = elim (Option-cases (saved_get t.id saved)) [
  | inl new ↦ rw new
  | inr (u, old) ↦ rw old (saved_get-id t.id saved u old)
]

merge_saved-ids :
    (saved tasks : List DownloadTask)
    → map (λ t. t.id) (merge_saved saved tasks) ≡ map (λ t. t.id) tasks
unfolding merge_saved
merge_saved-ids saved [] = refl
merge_saved-ids saved (t ∷ ts) = cc (merge_id saved t, merge_saved-ids saved ts)

-- Whatever the server answers to a move, the list keeps its rows, each in its place; no move and
-- no drag is under way afterwards, and an error changes nothing else of the list.
pub reorder_replied-ids :
    (reply : Reply (List DownloadTask)) (st : QueuePage)
    → let after = reorder_replied reply st in
      (map (λ t. t.id) after.tasks ≡ map (λ t. t.id) st.tasks)
      × (after.reordering_queue ≡ false)
      × (after.dragged_task_id ≡ none)
      × (after.drop_target ≡ none)
      × ((message : String)
          → reply ≡ failed_with message
          → (after.tasks ≡ st.tasks) × (after.queue_error ≡ message))
unfolding reorder_replied
reorder_replied-ids (ok saved) st = (merge_saved-ids saved st.tasks, refl, refl, refl, λ m e. cc)
reorder_replied-ids (failed_with m) st = (refl, refl, refl, refl, λ n e. ground arith)

any-index_by_id :
    (id : String) (ts : List DownloadTask)
    → is_some (index_by_id id ts) ≡ any (λ t. str_eq t.id id) ts
unfolding index_by_id
any-index_by_id id [] = refl
any-index_by_id id (t ∷ ts) = ground (arith, any-index_by_id id ts)

any-get_elem? :
    (ts : List DownloadTask) (i : ℕ) (u : DownloadTask)
    → get_elem? ts i ≡ some u
    → any (λ t. str_eq t.id u.id) ts ≡ true
any-get_elem? [] i u h = cc
any-get_elem? (t ∷ ts) zero u h = ground (arith, eq_iff t.id u.id)
any-get_elem? (t ∷ ts) (suc i) u h = ground (arith, any-get_elem? ts i u)

module _ (locale_compare : String → String → Ordering) where
  abbrev pub InQueue : String → QueuePage → Type 0
  InQueue id st = any (λ t. str_eq t.id id) (sortable_queue locale_compare st.tasks) ≡ true

  -- A move is requested exactly if none is under way, the two tasks differ, and both are in the
  -- queue; it then names these two, and the page is marked as reordering. Otherwise nothing
  -- changes.
  pub reorder_queue_iff :
      (target moving : String) (after : Bool) (st : QueuePage)
      → ((is_some (reorder_queue locale_compare target after (some moving) st).0 ≡ true) ↔ (
          (truthy moving ≡ true)
          × (moving ≢ target)
          × (st.reordering_queue ≡ false)
          × InQueue moving st
          × InQueue target st))
        × ((r : MoveRequest)
            → (reorder_queue locale_compare target after (some moving) st).0 ≡ some r
            → (r ≡ record { moving = moving; target = target; after = after })
              × ((reorder_queue locale_compare target after (some moving) st).1
                  ≡ record st { reordering_queue = true; queue_error = "" }))
        × ((reorder_queue locale_compare target after (some moving) st).0 ≡ none
            → (reorder_queue locale_compare target after (some moving) st).1 ≡ st)
  unfolding reorder_queue
  reorder_queue_iff target moving after st =
      let seen = any-index_by_id moving (sortable_queue locale_compare st.tasks) in
      let same = eq_iff moving target in
      (
        ground (arith, seen, same),
        λ r h. ground (arith, seen, same),
        λ h. ground (arith, seen, same),
      )

  -- An arrow key asks for the move past the neighbour in the queue, after it for the down key and
  -- before it for the up key; at the end of the queue it asks for nothing.
  pub arrow_pressed-neighbour :
      (id : String) (st : QueuePage) (i : ℕ)
      → truthy id ≡ true
      → st.reordering_queue ≡ false
      → index_by_id id (sortable_queue locale_compare st.tasks) ≡ some i
      → ((u : DownloadTask)
          → get_elem? (sortable_queue locale_compare st.tasks) (suc i) ≡ some u
          → id ≢ u.id
          → (arrow_pressed locale_compare arrow_down id st).0
            ≡ some (record { moving = id; target = u.id; after = true }))
        × (get_elem? (sortable_queue locale_compare st.tasks) (suc i) ≡ none
            → arrow_pressed locale_compare arrow_down id st ≡ (none, st))
        × ((j : ℕ) (u : DownloadTask)
            → i ≡ suc j
            → get_elem? (sortable_queue locale_compare st.tasks) j ≡ some u
            → id ≢ u.id
            → (arrow_pressed locale_compare arrow_up id st).0
              ≡ some (record { moving = id; target = u.id; after = false }))
        × (i ≡ 0 → arrow_pressed locale_compare arrow_up id st ≡ (none, st))
  unfolding arrow_pressed
  arrow_pressed-neighbour id st i t r at =
      let queue = sortable_queue locale_compare st.tasks in
      let seen = any-index_by_id id queue in
      (
        λ u next differ. ground (arith, seen, eq_iff id u.id, any-get_elem? queue (suc i) u),
        λ end. ground arith,
        λ j u e before differ. ground (arith, seen, eq_iff id u.id, any-get_elem? queue j u),
        λ e. ground arith,
      )
