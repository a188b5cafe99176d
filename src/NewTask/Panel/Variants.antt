-- ===== src/NewTask/Panel/Variants.antt =====
-- The variants that are offered, and the choice of one.
use modelshelf.Common.{
  String, List, [], ◌∷◌, Bool, true, false, Option, some, find, keep, ◌≡◌, inl, inr, refl, sym,
  subst, str_eq, eq_refl, truthy, Bool-cases,
}
use mathlib.Core.List.{Memᴰ}
use mathlib.Core.List.Memᴰ.{head, tail, cases_cons}
use modelshelf.Common.Scan.{trim, includes}
use modelshelf.NewTask.Form.{GgufVariant, DownloadEstimate}
use modelshelf.NewTask.Review.{
  available_variants, uses_gguf_variants, selected_variant, same_paths, pick_variant,
  valid_selection,
}
use modelshelf.NewTask.Panel.{visible_variants}

module _ {ℓ} {A : Type ℓ} where
  -- The test tells each member from the later ones.
  abbrev pub Apart : (A → A → Bool) → List A → Type ℓ
  Apart same [] = Unit
  Apart same (x ∷ xs) = ((y : A) → Memᴰ y xs → same x y ≡ false) × Apart same xs

  Mem-keep : (p : A → Bool) (x : A) (xs : List A) → Memᴰ x (keep p xs) → Memᴰ x xs
  Mem-keep p x [] h = h
  Mem-keep p x (y ∷ ys) h = elim (Bool-cases (p y)) [
    | inl kept ↦ elim (cases_cons (subst (λ zs. Memᴰ x zs) (rw kept refl) h)) [
      | inl e ↦ head e
      | inr m ↦ tail (Mem-keep p x ys m)
    ]
    | inr gone ↦ tail (Mem-keep p x ys (subst (λ zs. Memᴰ x zs) (rw gone refl) h))
  ]

  find-Apart :
      (same : A → A → Bool) (x : A) (xs : List A)
      → same x x ≡ true
      → Apart same xs
      → Memᴰ x xs
      → find (λ y. same y x) xs ≡ some x
  find-Apart same x [] s a m = elim m [ ]
  find-Apart same x (y ∷ ys) s (later, a) m = elim (cases_cons m) [
    | inl e ↦ rw (sym e, s) refl
    | inr m ↦ rw (later x m) (find-Apart same x ys s a m)
  ]

same_paths_refl : (ps : List String) → same_paths ps ps ≡ true
same_paths_refl [] = refl
same_paths_refl (p ∷ ps) = rw (eq_refl p) (same_paths_refl ps)

Mem-visible_variants :
    (lower : String → String) (estimate : Option DownloadEstimate) (filter : String)
    (v : GgufVariant)
    → Memᴰ v (visible_variants lower estimate filter)
    → Memᴰ v (available_variants estimate)
unfolding visible_variants
Mem-visible_variants lower estimate filter v h = elim (Bool-cases (truthy (lower (trim filter)))) [
  | inl filtered ↦
      Mem-keep (λ w. includes (lower w.label) (lower (trim filter))) v (available_variants estimate)
        (subst (λ ws. Memᴰ v ws) (rw filtered refl) h)
  | inr whole ↦ subst (λ ws. Memᴰ v ws) (rw whole refl) h
]

abbrev pub same_label : GgufVariant → GgufVariant → Bool
same_label v w = str_eq v.label w.label

abbrev pub same_files : GgufVariant → GgufVariant → Bool
same_files v w = same_paths v.paths w.paths

-- If the variants of an estimate differ in their labels and in their paths, then whatever was chosen
-- before and whatever the filter is, the choice of a variant that is shown makes it the selected one,
-- and the choice valid.
pub pick_variant-selected_variant :
    (lower : String → String) (estimate : Option DownloadEstimate) (filter : String)
    (v : GgufVariant) (current : List String)
    → uses_gguf_variants estimate ≡ true
    → Apart same_label (available_variants estimate)
    → Apart same_files (available_variants estimate)
    → Memᴰ v (visible_variants lower estimate filter)
    → let paths = pick_variant v.label estimate current in
      (selected_variant paths (available_variants estimate) ≡ some v)
      × (valid_selection estimate paths ≡ true)
unfolding pick_variant selected_variant valid_selection
pick_variant-selected_variant lower estimate filter v current u labels paths shown =
    let stands = Mem-visible_variants lower estimate filter v shown in
    let by_label =
      find-Apart same_label v (available_variants estimate) (eq_refl v.label) labels stands in
    let by_paths =
      find-Apart same_files v (available_variants estimate) (same_paths_refl v.paths) paths
        stands in
    let picked : pick_variant v.label estimate current ≡ v.paths =
      rw (pick_variant, by_label) refl in
    rw picked (by_paths, rw u (rw by_paths refl))
