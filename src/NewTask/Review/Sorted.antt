-- ===== src/NewTask/Review/Sorted.antt =====
-- The paths in the order of the browser's locale.
use modelshelf.Common.{
  String, List, [], ◌∷◌, Bool, true, false, ◌≡◌, refl, ◌∙◌, All, str_eq, arith, eq_iff, eq_refl,
  Ordering, Bool-cases, inl, inr, subst,
}
use mathlib.Core.Path.{ap₂}
use modelshelf.Common.Sets.{
  has, add_all, delete_all, of_list, Distinct, Distinct-add_all, Distinct-delete_all,
  Distinct-of_list,
}
use modelshelf.NewTask.Review.{in_locale, place, sort_paths, toggle_selected_paths}
use modelshelf.NewTask.Review.Ticks.{has-place, has-sort_paths}

-- The browser's order puts any two texts in some order, and carries on. It may put different texts at
-- one place, as those that are canonically equivalent.
pub record Collation (locale_compare : String → String → Ordering) : Type 0 where
  pub either_way :
      (s t : String)
      → in_locale (locale_compare s t) ≡ false
      → in_locale (locale_compare t s) ≡ true
  pub carries_on :
      (s t u : String)
      → in_locale (locale_compare s t) ≡ true
      → in_locale (locale_compare t u) ≡ true
      → in_locale (locale_compare s u) ≡ true

module _ (locale_compare : String → String → Ordering) where
  pub Distinct-place :
      (p : String) (ps : List String)
      → has p ps ≡ false
      → Distinct ps
      → Distinct (place locale_compare p ps)
  unfolding place has
  Distinct-place p [] h d = (refl, tt)
  Distinct-place p (q ∷ qs) h (new, d) = elim (Bool-cases (in_locale (locale_compare p q))) [
    | inl here ↦ rw here (h, (new, d))
    | inr later ↦ rw later (
      rw (has-place locale_compare q p qs) (ground (arith, h, new, eq_iff p q, eq_iff q p)),
      Distinct-place p qs (ground (arith, h)) d,
    )
  ]

  pub Distinct-sort_paths :
      (ps : List String) → Distinct ps → Distinct (sort_paths locale_compare ps)
  unfolding sort_paths
  Distinct-sort_paths [] d = tt
  Distinct-sort_paths (p ∷ ps) (new, d) =
      Distinct-place p (sort_paths locale_compare ps) (has-sort_paths locale_compare p ps ∙ new)
        (Distinct-sort_paths ps d)

  pub Distinct-toggle_selected_paths :
      (paths : List String) (checked : Bool) (current : List String)
      → Distinct (toggle_selected_paths locale_compare paths checked current)
  unfolding toggle_selected_paths
  Distinct-toggle_selected_paths paths true current =
      Distinct-sort_paths (add_all paths (of_list current))
        (Distinct-add_all paths (of_list current) (Distinct-of_list current))
  Distinct-toggle_selected_paths paths false current =
      Distinct-sort_paths (delete_all paths (of_list current))
        (Distinct-delete_all paths (of_list current) (Distinct-of_list current))

  abbrev pub Before : String → String → Type 0
  Before s t = in_locale (locale_compare s t) ≡ true

  -- The order tells those texts apart from each other that pass the test.
  abbrev pub Apart : (String → Bool) → Type 0
  Apart listed =
      (s t : String) → listed s ≡ true → listed t ≡ true → Before s t → Before t s → s ≡ t

  abbrev pub Sorted : List String → Type 0
  Sorted [] = Unit
  Sorted (p ∷ ps) = All (Before p) ps × Sorted ps

  module _ (c : Collation locale_compare) where
    Before-All :
        (p q : String) (ps : List String) → Before p q → All (Before q) ps → All (Before p) ps
    Before-All p q [] h all = tt
    Before-All p q (r ∷ rs) h (hr, hs) = (c.carries_on p q r h hr, Before-All p q rs h hs)

    Before-place :
        (q p : String) (ps : List String)
        → Before q p
        → All (Before q) ps
        → All (Before q) (place locale_compare p ps)
    unfolding place
    Before-place q p [] h all = (h, tt)
    Before-place q p (r ∷ rs) h (hr, hs) = elim (Bool-cases (in_locale (locale_compare p r))) [
      | inl here ↦ rw here (h, (hr, hs))
      | inr later ↦ rw later (hr, Before-place q p rs h hs)
    ]

    Sorted-place : (p : String) (ps : List String) → Sorted ps → Sorted (place locale_compare p ps)
    unfolding place
    Sorted-place p [] s = (tt, tt)
    Sorted-place p (q ∷ qs) (all, s) = elim (Bool-cases (in_locale (locale_compare p q))) [
      | inl here ↦ rw here ((here, Before-All p q qs here all), (all, s))
      | inr later ↦ rw later (Before-place q p qs (c.either_way p q later) all, Sorted-place p qs s)
    ]

    pub Sorted-sort_paths : (ps : List String) → Sorted (sort_paths locale_compare ps)
    unfolding sort_paths
    Sorted-sort_paths [] = tt
    Sorted-sort_paths (p ∷ ps) =
        Sorted-place p (sort_paths locale_compare ps) (Sorted-sort_paths ps)

    Before-has :
        (p v : String) (ps : List String) → All (Before p) ps → has v ps ≡ true → Before p v
    unfolding has
    Before-has p v [] all h = ground (arith, h)
    Before-has p v (q ∷ qs) (hq, all) h = elim (Bool-cases (str_eq q v)) [
      | inl same ↦ subst (Before p) ((eq_iff q v).0 same) hq
      | inr other ↦ Before-has p v qs all (ground (arith, h, other))
    ]

    first_same :
        (p q : String) (ps qs : List String)
        → All (Before p) ps
        → All (Before q) qs
        → Apart (λ v. has v (p ∷ ps))
        → ((v : String) → has v (p ∷ ps) ≡ has v (q ∷ qs))
        → p ≡ q
    unfolding has
    first_same p q ps qs sp sq apart same = elim (Bool-cases (str_eq p q)) [
      | inl e ↦ (eq_iff p q).0 e
      | inr other ↦
          apart p q (ground (arith, eq_refl p)) (ground (arith, same q, eq_refl q))
            (Before-has p q ps sp (ground (arith, same q, other, eq_refl q)))
            (Before-has q p qs sq
              (ground (arith, same p, other, eq_refl p, eq_iff p q, eq_iff q p)))
    ]

    -- Two lists without repetitions, both in order, that hold the same texts are the same, if the
    -- order tells these apart.
    pub Sorted-unique :
        (ps qs : List String)
        → Sorted ps
        → Sorted qs
        → Distinct ps
        → Distinct qs
        → Apart (λ v. has v ps)
        → ((v : String) → has v ps ≡ has v qs)
        → ps ≡ qs
    unfolding has
    Sorted-unique [] [] sp sq dp dq apart same = refl
    Sorted-unique [] (q ∷ qs) sp sq dp dq apart same = ground (arith, same q, eq_refl q)
    Sorted-unique (p ∷ ps) [] sp sq dp dq apart same = ground (arith, same p, eq_refl p)
    Sorted-unique (p ∷ ps) (q ∷ qs) (hp, sp) (hq, sq) (np, dp) (nq, dq) apart same =
        let e = first_same p q ps qs hp hq apart same in
        let rest : (v : String) → has v ps ≡ has v qs =
          λ v. ground (arith, same v, e, np, nq, eq_iff p v, eq_iff q v, eq_iff v p, eq_iff v q) in
        ap₂ ◌∷◌ e (
          Sorted-unique ps qs sp sq dp dq
            (λ s t hs ht. apart s t (ground (arith, hs)) (ground (arith, ht))) rest)
