-- ===== src/Selection/Canonical.antt =====
-- Ticks at the files of a selection, and selections without their order.
use mathlib.Core.Quot
use mathlib.Core.Quot.{Quot, Quot-set}
use modelshelf.Common.{
  String, List, Bool, true, false, ◌||◌, ◌≡◌, sym, ap, ◌∙◌, arith, if◌then◌else◌, Ordering,
}
use modelshelf.Common.Sets.{has, of_list, add_all, delete_all}
use modelshelf.NewTask.Review.{toggle_selected_paths}
use modelshelf.NewTask.Review.Ticks.{has-toggle_selected_paths}
use modelshelf.NewTask.Review.Sorted.{
  Distinct-toggle_selected_paths, Collation, Sorted, Apart, Sorted-unique, Sorted-sort_paths,
}

-- Two lists select the same files.
abbrev pub SameFiles : List String → List String → Type 0
SameFiles ps qs = (v : String) → has v ps ≡ has v qs

module _ (locale_compare : String → String → Ordering) (c : Collation locale_compare) where
  abbrev toggle : List String → Bool → List String → List String
  toggle paths checked current = toggle_selected_paths locale_compare paths checked current

  Sorted-toggle :
      (paths : List String) (checked : Bool) (current : List String)
      → Sorted locale_compare (toggle paths checked current)
  unfolding toggle_selected_paths
  Sorted-toggle paths true current =
      Sorted-sort_paths locale_compare c (add_all paths (of_list current))
  Sorted-toggle paths false current =
      Sorted-sort_paths locale_compare c (delete_all paths (of_list current))

  toggled_unique :
      (ps qs s t : List String) (a b : Bool)
      → Apart locale_compare (λ v. has v (toggle ps a s))
      → SameFiles (toggle ps a s) (toggle qs b t)
      → toggle ps a s ≡ toggle qs b t
  toggled_unique ps qs s t a b apart same =
      Sorted-unique locale_compare c (toggle ps a s) (toggle qs b t) (Sorted-toggle ps a s)
        (Sorted-toggle qs b t) (Distinct-toggle_selected_paths locale_compare ps a s)
        (Distinct-toggle_selected_paths locale_compare qs b t) apart same

  has-toggle :
      (v : String) (ps : List String) (a : Bool) (s : List String)
      → has v (toggle ps a s) ≡ (if has v ps then a else has v s)
  has-toggle v ps a s = has-toggle_selected_paths locale_compare v ps a s

  swapped :
      (ps qs current : List String) (a b : Bool) (v : String)
      → (has v ps ≡ true → has v qs ≡ true → a ≡ b)
      → has v (toggle qs b (toggle ps a current)) ≡ has v (toggle ps a (toggle qs b current))
  swapped ps qs current a b v meet =
      rw
        (
          has-toggle v qs b (toggle ps a current),
          has-toggle v ps a (toggle qs b current),
          has-toggle v ps a current,
          has-toggle v qs b current,
        )
        (ground (arith, meet))

  -- Every file of the list after two ticks was ticked or chosen before.
  within :
      (ps qs current : List String) (a b : Bool) (v : String)
      → has v (toggle qs b (toggle ps a current)) ≡ true
      → (has v ps || has v qs || has v current) ≡ true
  within ps qs current a b v h =
      ground (arith, h, has-toggle v qs b (toggle ps a current), has-toggle v ps a current)

  -- Two ticks that agree at the files that they have in common give the same list of paths in either
  -- order, and so the same request; and of two ticks at the same files only the last counts; if the
  -- browser puts any two paths in some order, carries on, and gives different places to different
  -- paths among those that are ticked or chosen.
  pub toggle_selected_paths_comm :
      (ps qs current : List String) (a b : Bool)
      → Apart locale_compare (λ v. has v ps || has v qs || has v current)
      → ((v : String) → has v ps ≡ true → has v qs ≡ true → a ≡ b)
      → (toggle_selected_paths locale_compare qs b
            (toggle_selected_paths locale_compare ps a current)
          ≡ toggle_selected_paths locale_compare ps a
              (toggle_selected_paths locale_compare qs b current))
        × (toggle_selected_paths locale_compare ps b
              (toggle_selected_paths locale_compare ps a current)
            ≡ toggle_selected_paths locale_compare ps b current)
  toggle_selected_paths_comm ps qs current a b apart meet = (
    toggled_unique qs ps (toggle ps a current) (toggle qs b current) b a
        (λ s t hs ht. apart s t (within ps qs current a b s hs) (within ps qs current a b t ht))
        (λ v. swapped ps qs current a b v (meet v)),
    toggled_unique ps ps (toggle ps a current) current b b
        (λ s t hs ht.
          apart s t (ground (arith, within ps ps current a b s hs))
            (ground (arith, within ps ps current a b t ht)))
        (λ v.
          rw
            (
              has-toggle v ps b (toggle ps a current),
              has-toggle v ps b current,
              has-toggle v ps a current,
            )
            (ground arith)),
  )

  toggle-SameFiles :
      (paths ps qs : List String) (checked : Bool)
      → SameFiles ps qs
      → SameFiles (toggle paths checked ps) (toggle paths checked qs)
  toggle-SameFiles paths ps qs checked same v =
      has-toggle v paths checked ps
      ∙ ap (λ b. if has v paths then checked else b) (same v)
      ∙ sym (has-toggle v paths checked qs)

  -- A selection without its order
  abbrev pub FileSet : Type 0
  FileSet = Quot SameFiles

  pub tick : List String → Bool → FileSet → FileSet
  tick paths checked =
      Quot.lift Quot-set (λ current. Quot.mk (toggle paths checked current))
        (λ ps qs same. Quot.sound (toggle-SameFiles paths ps qs checked same))

  tick_comm :
      (ps qs : List String) (a b : Bool)
      → ((v : String) → has v ps ≡ true → has v qs ≡ true → a ≡ b)
      → (s : FileSet) → tick qs b (tick ps a s) ≡ tick ps a (tick qs b s)
  unfolding tick
  tick_comm ps qs a b meet =
      Quot.ind (λ s. Quot-set _ _)
        (λ current. Quot.sound (λ v. swapped ps qs current a b v (meet v)))
