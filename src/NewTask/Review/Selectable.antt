-- ===== src/NewTask/Review/Selectable.antt =====
-- A valid choice of files holds selectable files only.
use modelshelf.Common.{
  ◌+◌, ◌≤◌, String, List, [], ◌∷◌, true, false, not, ◌≡◌, ◌≢◌, refl, ap, length, map,
  length-keep-le, str_eq, arith, eq_iff, Bool-cases, inl, inr, Option,
}
use modelshelf.Common.Sets.{has, delete, has-delete, Distinct}
use modelshelf.NewTask.Form.{SelectableFile, DownloadEstimate}
use modelshelf.NewTask.Review.{
  selected_files, selectable_files, uses_gguf_variants, valid_selection,
}

abbrev pub paths_of : List SelectableFile → List String
paths_of files = map (λ f. f.path) files

length-delete :
    (v : String) (ps : List String) → has v ps ≡ true → length (delete v ps) + 1 ≤ length ps
unfolding has delete
length-delete v [] h = ground arith
length-delete v (p ∷ ps) h = elim (Bool-cases (str_eq p v)) [
  | inl same ↦ rw same (omega (arith, length-keep-le (λ x. not (str_eq x v)) ps))
  | inr other ↦ rw other (omega (arith, length-delete v ps (rw other at h)))
]

pub selected_files-delete :
    (v : String) (ps : List String) (fs : List SelectableFile)
    → has v (paths_of fs) ≡ false
    → selected_files (delete v ps) fs ≡ selected_files ps fs
unfolding selected_files has
selected_files-delete v ps [] h = refl
selected_files-delete v ps (f ∷ fs) h =
    ground (arith, has-delete f.path v ps, selected_files-delete v ps fs, eq_iff f.path v)

length-selected_files :
    (p : String) (fs : List SelectableFile) (ps : List String)
    → Distinct (paths_of fs)
    → has p ps ≡ true
    → has p (paths_of fs) ≡ false
    → length (selected_files ps fs) + 1 ≤ length ps
unfolding selected_files has
length-selected_files p [] [] d h n = ground arith
length-selected_files p [] (q ∷ qs) d h n = omega arith
length-selected_files p (f ∷ fs) ps (new, d) h n = elim (Bool-cases (has f.path ps)) [
  | inl chosen ↦
      let rest =
        length-selected_files p fs (delete f.path ps) d
          (ground (arith, has-delete p f.path ps, eq_iff p f.path, eq_iff f.path p, n))
          (ground (arith, n)) in
      let shorter = length-delete f.path ps chosen in
      let same = selected_files-delete f.path ps fs new in
      rw chosen (omega (arith, rest, shorter, ap length same))
  | inr left ↦ rw left (length-selected_files p fs ps d h (ground (arith, n)))
]

-- A choice of files that is valid, where no variants are offered, is not empty and names only files
-- of the estimate, if the paths of the estimate's files differ.
pub valid_selection-selectable_files :
    (estimate : Option DownloadEstimate) (paths : List String)
    → uses_gguf_variants estimate ≡ false
    → Distinct (paths_of (selectable_files estimate))
    → valid_selection estimate paths ≡ true
    → (paths ≢ [])
      × ((p : String) → has p paths ≡ true → has p (paths_of (selectable_files estimate)) ≡ true)
unfolding valid_selection
valid_selection-selectable_files estimate paths u d valid =
    let checks = rw u at valid in
    (
      λ none_chosen. ground (arith, none_chosen, checks),
      λ p chosen. elim (Bool-cases (has p (paths_of (selectable_files estimate)))) [
        | inl known ↦ known
        | inr unknown ↦
            let short =
              length-selected_files p (selectable_files estimate) paths d chosen unknown in
            ground (arith, short, checks)
      ],
    )
