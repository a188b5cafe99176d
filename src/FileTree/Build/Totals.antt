-- ===== src/FileTree/Build/Totals.antt =====
-- The tree holds every file once, and its sizes add up.
use modelshelf.Common.{
  ℕ, zero, suc, ◌+◌, String, List, [], ◌∷◌, ◌++◌, Option, none, some, get_or, is_some,
  if◌then◌else◌, str_eq, map, All, ◌≡◌, ◌≢◌, refl, ◌∙◌, arith, Bool-cases, inl, inr, Ordering,
}
use modelshelf.FileTree.Build.{
  File, Nodes, end, node, parts_of, insert, insert_all, Row, Rows, no_rows, row, paths_of_rows,
  size_of_rows, plus, own_paths, row_of, row_in_order, place_row, finalize, build_tree,
}
use modelshelf.FileTree.Build.Insertion.{
  held, held-end, held-insert_other, weight_of, total, total-insert,
}

-- How often a text stands in a list.
pub count : String → List String → ℕ
count v [] = 0
count v (x ∷ xs) = (if str_eq x v then 1 else 0) + count v xs

count-append : (v : String) (xs ys : List String) → count v (xs ++ ys) ≡ count v xs + count v ys
unfolding count
count-append v [] ys = omega arith
count-append v (x ∷ xs) ys = omega (arith, count-append v xs ys)

abbrev pub occurs : String → File → ℕ
occurs v f = if str_eq f.path v then 1 else 0

abbrev pub known_size : File → ℕ
known_size f = get_or f.size 0

abbrev pub unknown : File → ℕ
unknown f = if is_some f.size then 0 else 1

pub sum : (File → ℕ) → List File → ℕ
sum weight [] = 0
sum weight (f ∷ fs) = weight f + sum weight fs

-- The parts of the paths are not empty, and differ.
unfoldable pub Separate : List File → Type 0
Separate [] = Unit
Separate (f ∷ fs) =
    (parts_of f.path ≢ []) × All (λ g. parts_of g.path ≢ parts_of f.path) fs × Separate fs

Fresh : List File → Nodes → Type 0
Fresh fs nodes = All (λ g. held (parts_of g.path) nodes ≡ none) fs

Fresh-insert :
    (f : File) (fs : List File) (nodes : Nodes)
    → All (λ g. parts_of g.path ≢ parts_of f.path) fs
    → Fresh fs nodes
    → Fresh fs (insert f (parts_of f.path) "" nodes)
unfolding Fresh
Fresh-insert f [] nodes d h = tt
Fresh-insert f (g ∷ gs) nodes (d, ds) (h, hs) = (
  held-insert_other f (parts_of f.path) (parts_of g.path) "" nodes d ∙ h,
  Fresh-insert f gs nodes ds hs,
)

total-insert_all :
    (weight : File → ℕ) (fs : List File) (nodes : Nodes)
    → Separate fs
    → Fresh fs nodes
    → total weight (insert_all fs nodes) ≡ sum weight fs + total weight nodes
unfolding Separate Fresh insert_all sum
total-insert_all weight [] nodes s h = omega arith
total-insert_all weight (f ∷ fs) nodes (nonempty, others, s) (h, hs) =
    total-insert_all weight fs (insert f (parts_of f.path) "" nodes) s
      (Fresh-insert f fs nodes others hs)
    ∙ omega (arith, total-insert weight f (parts_of f.path) "" nodes nonempty h)

Fresh-end : (fs : List File) → Fresh fs end
unfolding Fresh held
Fresh-end [] = tt
Fresh-end (f ∷ fs) = (held-end (parts_of f.path), Fresh-end fs)

sum-count : (v : String) (fs : List File) → sum (occurs v) fs ≡ count v (map (λ f. f.path) fs)
unfolding sum count
sum-count v [] = refl
sum-count v (f ∷ fs) = omega (arith, sum-count v fs)

-- The sum of the sizes, unless one is unknown.
abbrev pub sum_if_known : ℕ → ℕ → Option ℕ
sum_if_known zero size = some size
sum_if_known (suc missing) size = none

module _ (locale_compare : String → String → Ordering) where
  count-place_row :
      (v : String) (r : Row) (children rows : Rows)
      → count v (paths_of_rows (place_row locale_compare r children rows))
        ≡ count v (r.file_paths ++ paths_of_rows rows)
  unfolding place_row
  count-place_row v r children no_rows = refl
  count-place_row v r children (row q below more) =
      elim (Bool-cases (row_in_order locale_compare r q)) [
        | inl before ↦ rw before refl
        | inr after ↦ rw after (
            omega (
              arith,
              count-append v q.file_paths
                  (paths_of_rows (place_row locale_compare r children more)),
              count-append v q.file_paths (paths_of_rows more),
              count-append v r.file_paths (q.file_paths ++ paths_of_rows more),
              count-append v r.file_paths (paths_of_rows more),
              count-place_row v r children more,
            ))
      ]

  size-place_row :
      (r : Row) (children rows : Rows)
      → size_of_rows (place_row locale_compare r children rows)
        ≡ plus r.total_size (size_of_rows rows)
  unfolding place_row
  size-place_row r children no_rows = refl
  size-place_row r children (row q below more) = ground (arith, size-place_row r children more)

  count-own_paths :
      (v : String) (own : Option File) → count v (own_paths own) ≡ weight_of (occurs v) own
  unfolding count
  count-own_paths v none = refl
  count-own_paths v (some f) = omega arith

  count-finalize :
      (v : String) (nodes : Nodes)
      → count v (paths_of_rows (finalize locale_compare nodes)) ≡ total (occurs v) nodes
  unfolding finalize count row_of total
  count-finalize v end = refl
  count-finalize v (node name path own children more) =
      let below = finalize locale_compare children in
      let rest = finalize locale_compare more in
      count-place_row v (row_of name path own below) below rest
      ∙ omega (
        arith,
        count-append v (own_paths own ++ paths_of_rows below) (paths_of_rows rest),
        count-append v (own_paths own) (paths_of_rows below),
        count-own_paths v own,
        count-finalize v children,
        count-finalize v more,
      )

  size-finalize :
      (nodes : Nodes)
      → size_of_rows (finalize locale_compare nodes)
        ≡ sum_if_known (total unknown nodes) (total known_size nodes)
  unfolding finalize row_of total
  size-finalize end = refl
  size-finalize (node name path own children more) =
      let below = finalize locale_compare children in
      size-place_row (row_of name path own below) below (finalize locale_compare more)
      ∙ ground (arith, size-finalize children, size-finalize more)

  -- If no two files have the same parts and none has no part, the rows at the top hold every path as
  -- often as the files do, and their sizes add up to the files' sizes, or are unknown exactly if the
  -- size of one of the files is.
  pub build_tree-sum :
      (files : List File)
      → Separate files
      → ((v : String)
          → count v (paths_of_rows (build_tree locale_compare files))
            ≡ count v (map (λ f. f.path) files))
        × (size_of_rows (build_tree locale_compare files)
            ≡ sum_if_known (sum unknown files) (sum known_size files))
  unfolding build_tree total
  build_tree-sum files s =
      let all_in = λ (weight : File → ℕ). total-insert_all weight files end s (Fresh-end files) in
      (
        λ v.
            omega (
              arith,
              count-finalize v (insert_all files end),
              all_in (occurs v),
              sum-count v files,
            ),
        size-finalize (insert_all files end) ∙ ground (arith, all_in unknown, all_in known_size),
      )
