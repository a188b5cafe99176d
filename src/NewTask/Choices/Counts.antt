-- ===== src/NewTask/Choices/Counts.antt =====
-- How many files distinct paths select.
use modelshelf.Common.{
  ◌+◌, String, List, [], ◌∷◌, length, true, false, if◌then◌else◌, ◌≡◌, refl, ap, subst, str_eq,
  arith, eq_iff, eq_refl, Bool-cases, inl, inr,
}
use modelshelf.Common.Sets.{has, delete, has-delete, Distinct, Distinct-delete}
use modelshelf.NewTask.Form.{SelectableFile}
use modelshelf.NewTask.Review.{selected_files}
use modelshelf.NewTask.Review.Selectable.{paths_of, selected_files-delete}

length-delete-Distinct :
    (v : String) (ps : List String)
    → Distinct ps
    → length ps ≡ (if has v ps then 1 else 0) + length (delete v ps)
unfolding has delete
length-delete-Distinct v [] d = omega arith
length-delete-Distinct v (p ∷ ps) (new, d) = elim (Bool-cases (str_eq p v)) [
  | inl same ↦
      let gone : has v ps ≡ false = subst (λ x. has x ps ≡ false) ((eq_iff p v).0 same) new in
      rw same (ground (arith, length-delete-Distinct v ps d, gone))
  | inr other ↦ rw other (ground (arith, length-delete-Distinct v ps d))
]

-- The paths are all among those of the files.
abbrev pub Among : List SelectableFile → List String → Type 0
Among files ps = (p : String) → has p ps ≡ true → has p (paths_of files) ≡ true

Among-delete :
    (f : SelectableFile) (fs : List SelectableFile) (ps : List String)
    → Among (f ∷ fs) ps
    → Among fs (delete f.path ps)
unfolding has
Among-delete f fs ps h p k =
    let left = has-delete p f.path ps in
    ground (arith, h p, k, left, eq_iff p f.path, eq_iff f.path p)

Among-tail :
    (f : SelectableFile) (fs : List SelectableFile) (ps : List String)
    → has f.path ps ≡ false
    → Among (f ∷ fs) ps
    → Among fs ps
unfolding has
Among-tail f fs ps absent h p k = ground (arith, h p, k, absent, eq_iff f.path p)

-- Distinct paths that all are among the files' select as many files.
pub length-selected_files :
    (fs : List SelectableFile) (ps : List String)
    → Distinct (paths_of fs)
    → Distinct ps
    → Among fs ps
    → length (selected_files ps fs) ≡ length ps
unfolding selected_files has
length-selected_files [] [] df dp h = refl
length-selected_files [] (p ∷ ps) df dp h = ground (arith, h p, eq_refl p)
length-selected_files (f ∷ fs) ps (new, df) dp h = elim (Bool-cases (has f.path ps)) [
  | inl picked ↦
      let rest =
        length-selected_files fs (delete f.path ps) df (Distinct-delete f.path ps dp)
          (Among-delete f fs ps h) in
      let same = ap length (selected_files-delete f.path ps fs new) in
      let shorter = length-delete-Distinct f.path ps dp in
      rw picked (ground (arith, rest, same, shorter, picked))
  | inr left ↦ rw left (length-selected_files fs ps df dp (Among-tail f fs ps left h))
]
