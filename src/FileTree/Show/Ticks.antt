-- ===== src/FileTree/Show/Ticks.antt =====
-- A tick at a row of the tree, with the choice that the form of a new download keeps.
use modelshelf.Common.{
  ℕ, String, List, [], ◌∷◌, Bool, true, false, not, if◌then◌else◌, keep, length, ◌≡◌, refl, arith,
  Ordering, eq_refl,
}
use modelshelf.Common.Sets.{has}
use modelshelf.NewTask.Review.{toggle_selected_paths}
use modelshelf.NewTask.Review.Ticks.{has-toggle_selected_paths}
use modelshelf.FileTree.Build.{Row}
use modelshelf.FileTree.Show.{selected_count, checked, partially_checked, box_changed, name_clicked}

-- How many of some paths a choice holds.
abbrev hits : List String → List String → ℕ
hits chosen ps = length (keep (λ p. has p chosen) ps)

-- No path of the one list is in the other.
pub Apart : List String → List String → Type 0
Apart [] qs = Unit
Apart (p ∷ ps) qs = (has p qs ≡ false) × Apart ps qs

-- Every path of the one list is in the other.
Within : List String → List String → Type 0
Within [] qs = Unit
Within (p ∷ ps) qs = (has p qs ≡ true) × Within ps qs

Within-cons : (p : String) (ps qs : List String) → Within ps qs → Within ps (p ∷ qs)
unfolding Within has
Within-cons p [] qs w = tt
Within-cons p (q ∷ ps) qs (h, w) = (ground arith, Within-cons p ps qs w)

Within-self : (ps : List String) → Within ps ps
unfolding Within has
Within-self [] = tt
Within-self (p ∷ ps) = (ground (arith, eq_refl p), Within-cons p ps ps (Within-self ps))

module _ (locale_compare : String → String → Ordering) where
  hits-Within :
      (qs ps : List String) (tick : Bool) (chosen : List String)
      → Within ps qs
      → hits (toggle_selected_paths locale_compare qs tick chosen) ps
        ≡ (if tick then length ps else 0)
  unfolding Within
  hits-Within qs [] tick chosen w = ground arith
  hits-Within qs (p ∷ ps) tick chosen (h, w) = ground (
    arith,
    has-toggle_selected_paths locale_compare p qs tick chosen,
    hits-Within qs ps tick chosen w,
  )

  hits-Apart :
      (qs ps : List String) (tick : Bool) (chosen : List String)
      → Apart ps qs
      → hits (toggle_selected_paths locale_compare qs tick chosen) ps ≡ hits chosen ps
  unfolding Apart
  hits-Apart qs [] tick chosen w = refl
  hits-Apart qs (p ∷ ps) tick chosen (h, w) = ground (
    arith,
    has-toggle_selected_paths locale_compare p qs tick chosen,
    hits-Apart qs ps tick chosen w,
  )

  -- A click on the name of a row ticks all its paths, or takes all of them away if they were all
  -- ticked; a click on the tick box asks for the same, also while it is partially ticked; and a row
  -- that has no path in common keeps its state.
  pub name_clicked-checked :
      (r q : Row) (chosen : List String)
      → let next =
          toggle_selected_paths locale_compare r.file_paths (name_clicked chosen r) chosen in
        (checked chosen r ≡ false → (checked next r ≡ true) × (partially_checked next r ≡ false))
        × (checked chosen r ≡ true → selected_count next r ≡ 0)
        × (box_changed chosen r (not (checked chosen r)) ≡ name_clicked chosen r)
        × (Apart q.file_paths r.file_paths
            → (checked next q ≡ checked chosen q)
              × (partially_checked next q ≡ partially_checked chosen q))
  unfolding checked partially_checked selected_count box_changed name_clicked
  name_clicked-checked r q chosen =
      let here =
        hits-Within r.file_paths r.file_paths (name_clicked chosen r) chosen
          (Within-self r.file_paths) in
      let there = hits-Apart r.file_paths q.file_paths (name_clicked chosen r) chosen in
      (
        λ c. ground (arith, here, c),
        λ c. ground (arith, here, c),
        ground arith,
        λ a. ground (arith, there a),
      )
