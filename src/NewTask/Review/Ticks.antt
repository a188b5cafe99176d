-- ===== src/NewTask/Review/Ticks.antt =====
-- The choice of files.
use modelshelf.Common.{
  String, List, [], ◌∷◌, Bool, true, false, ◌≡◌, refl, ◌∙◌, ◌||◌, str_eq, if◌then◌else◌, arith,
  Ordering,
}
use modelshelf.Common.Sets.{
  has, has-add_all, has-delete_all, has-of_list, add_all, delete_all, of_list,
}
use modelshelf.NewTask.Review.{place, sort_paths, toggle_selected_paths}

module _ (locale_compare : String → String → Ordering) where
  pub has-place :
      (v p : String) (ps : List String)
      → has v (place locale_compare p ps) ≡ (str_eq p v || has v ps)
  unfolding place has
  has-place v p [] = refl
  has-place v p (q ∷ qs) = ground (arith, has-place v p qs)

  pub has-sort_paths :
      (v : String) (ps : List String) → has v (sort_paths locale_compare ps) ≡ has v ps
  unfolding sort_paths has
  has-sort_paths v [] = refl
  has-sort_paths v (p ∷ ps) =
      has-place v p (sort_paths locale_compare ps) ∙ ground (arith, has-sort_paths v ps)

  -- A tick at some paths, as of a folder, selects or deselects exactly these and leaves every other
  -- path as it was.
  pub has-toggle_selected_paths :
      (v : String) (paths : List String) (checked : Bool) (current : List String)
      → has v (toggle_selected_paths locale_compare paths checked current)
        ≡ (if has v paths then checked else has v current)
  unfolding toggle_selected_paths
  has-toggle_selected_paths v paths true current =
      has-sort_paths v (add_all paths (of_list current))
      ∙ has-add_all v paths (of_list current)
      ∙ ground (arith, has-of_list v current)
  has-toggle_selected_paths v paths false current =
      has-sort_paths v (delete_all paths (of_list current))
      ∙ has-delete_all v paths (of_list current)
      ∙ ground (arith, has-of_list v current)
