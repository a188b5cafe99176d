-- ===== src/Queue/Order/Sorted.antt =====
-- The queue is in order, and holds each sortable task of the list as often as the list does.
use mathlib.Core.List.{Perm}
use mathlib.Core.List.Perm
use modelshelf.Common.{
  ◌<◌, ◌⊎◌, String, List, [], ◌∷◌, true, false, ◌≡◌, ◌≢◌, Ordering, keep, arith, Bool-cases, inl,
  inr,
}
use modelshelf.Task.{DownloadTask}
use modelshelf.Queue.Order.{is_sortable, position, in_order, place, sort, sortable_queue}

module _ (locale_compare : String → String → Ordering) where
  -- The first task has the smaller position; or both have the same, and it was not created later.
  -- A task without a position has the greatest safe integer.
  abbrev pub Earlier : DownloadTask → DownloadTask → Type 0
  Earlier t u =
      (position t < position u)
      ⊎ ((position t ≡ position u) × (locale_compare t.created_at u.created_at ≢ Ordering.gt))

  -- Each task stands before the next by its position and its creation.
  abbrev pub Queued : List DownloadTask → Type 0
  Queued [] = Unit
  Queued (t ∷ []) = Unit
  Queued (t ∷ u ∷ us) = Earlier t u × Queued (u ∷ us)

  -- Each task may stand before the next for the comparator.
  abbrev InOrder : List DownloadTask → Type 0
  InOrder [] = Unit
  InOrder (t ∷ []) = Unit
  InOrder (t ∷ u ∷ us) = (in_order locale_compare t u ≡ true) × InOrder (u ∷ us)

  in_order-Earlier : (t u : DownloadTask) → in_order locale_compare t u ≡ true → Earlier t u
  unfolding in_order
  in_order-Earlier t u h = ground (arith, h)

  InOrder-Queued : (ts : List DownloadTask) → InOrder ts → Queued ts
  InOrder-Queued [] h = tt
  InOrder-Queued (t ∷ []) h = tt
  InOrder-Queued (t ∷ u ∷ us) (h, hs) = (in_order-Earlier t u h, InOrder-Queued (u ∷ us) hs)

  place-perm :
      (t : DownloadTask) (us : List DownloadTask) → Perm (place locale_compare t us) (t ∷ us)
  unfolding place
  place-perm t [] = Perm.refl (t ∷ [])
  place-perm t (u ∷ us) = elim (Bool-cases (in_order locale_compare t u)) [
    | inl before ↦ rw before (Perm.refl (t ∷ u ∷ us))
    | inr after ↦ rw after (Perm.trans (Perm.cons u (place-perm t us)) (Perm.swap t u us))
  ]

  sort-perm : (ts : List DownloadTask) → Perm (sort locale_compare ts) ts
  unfolding sort
  sort-perm [] = Perm.refl []
  sort-perm (t ∷ ts) =
      Perm.trans (place-perm t (sort locale_compare ts)) (Perm.cons t (sort-perm ts))

  module _
      (asym : (a b : String)
        → locale_compare a b ≡ Ordering.gt
        → locale_compare b a ≢ Ordering.gt) where
    in_order_total :
        (t u : DownloadTask)
        → in_order locale_compare t u ≡ false
        → in_order locale_compare u t ≡ true
    unfolding in_order
    in_order_total t u h = ground (arith, asym t.created_at u.created_at)

    place_after :
        (t u : DownloadTask) (us : List DownloadTask)
        → in_order locale_compare t u ≡ false
        → InOrder (u ∷ us)
        → InOrder (place locale_compare t us)
        → InOrder (u ∷ place locale_compare t us)
    unfolding place
    place_after t u [] h o p = (in_order_total t u h, tt)
    place_after t u (v ∷ us) h o p = elim (Bool-cases (in_order locale_compare t v)) [
      | inl before ↦ rw before (in_order_total t u h, rw before at p)
      | inr after ↦ rw after (o.0, rw after at p)
    ]

    place-InOrder :
        (t : DownloadTask) (us : List DownloadTask)
        → InOrder us
        → InOrder (place locale_compare t us)
    unfolding place
    place-InOrder t [] h = tt
    place-InOrder t (u ∷ []) h = elim (Bool-cases (in_order locale_compare t u)) [
      | inl before ↦ rw before (before, tt)
      | inr after ↦ rw after (in_order_total t u after, tt)
    ]
    place-InOrder t (u ∷ v ∷ us) h = elim (Bool-cases (in_order locale_compare t u)) [
      | inl before ↦ rw before (before, h)
      | inr after ↦ rw after (place_after t u (v ∷ us) after h (place-InOrder t (v ∷ us) h.1))
    ]

    sort-InOrder : (ts : List DownloadTask) → InOrder (sort locale_compare ts)
    unfolding sort
    sort-InOrder [] = tt
    sort-InOrder (t ∷ ts) = place-InOrder t (sort locale_compare ts) (sort-InOrder ts)

    -- The queue that a reorder and the arrow keys work on holds exactly the queued and paused
    -- tasks of the list, in the order of their positions, and of their times of creation where
    -- two positions are equal; if the locale's comparison is asymmetric.
    pub sortable_queue-Queued :
        (tasks : List DownloadTask)
        → Queued (sortable_queue locale_compare tasks)
          × Perm (sortable_queue locale_compare tasks) (keep (λ t. is_sortable t.status) tasks)
    unfolding sortable_queue
    sortable_queue-Queued tasks =
        let chosen = keep (λ (t : DownloadTask). is_sortable t.status) tasks in
        (InOrder-Queued (sort locale_compare chosen) (sort-InOrder chosen), sort-perm chosen)
