-- ===== src/Tests/Trees.antt =====
-- A tree of files on concrete inputs.
use modelshelf.Common.{
  String, List, [], ◌∷◌, Bool, true, false, some, map, truthy, ◌≡◌, arith, eq_iff, ◌&&◌, Ordering,
}
use modelshelf.Common.Scan.{split_slash}
use modelshelf.FileTree.Build.{
  File, Row, Rows, paths_of_rows, size_of_rows, build_tree, file, directory,
}
use modelshelf.FileTree.Build.Totals.{
  count, sum, unknown, known_size, sum_if_known, Separate, build_tree-sum,
}
use modelshelf.FileTree.Show.{matches, has_rows, filter_tree}
use modelshelf.FileTree.Show.Filter.{any_row, Justified, filter_tree-Justified}

abbrev same_order : String → String → Ordering
same_order left right = Ordering.eq

abbrev lower : String → String
lower t = t

abbrev files : List File
files =
    record { path = "a/w.bin"; size = some 5 }
    ∷ record { path = "c.json"; size = some 2 }
    ∷ record { path = "a/c.json"; size = some 1 }
    ∷ []

abbrev tree : Rows
tree = build_tree same_order files

files-Separate : Separate files
unfolding Separate split_slash
files-Separate = (
  (λ e. ground (arith, e)),
  (
    (λ e. ground (arith, e, eq_iff "c.json" "a")),
    ((λ e. ground (arith, e, eq_iff "c.json" "w.bin")), tt),
  ),
  (
    (λ e. ground (arith, e)),
    ((λ e. ground (arith, e, eq_iff "a" "c.json")), tt),
    ((λ e. ground (arith, e)), tt, tt),
  ),
)

build_tree-sum_example :
    ((v : String) → count v (paths_of_rows tree) ≡ count v (map (λ f. f.path) files))
    × (size_of_rows tree ≡ sum_if_known (sum unknown files) (sum known_size files))
build_tree-sum_example = build_tree-sum same_order files files-Separate

abbrev folder : Row
folder = record {
  name = "a";
  path = "a";
  kind = directory;
  file_paths = "a/w.bin" ∷ "a/c.json" ∷ [];
  total_size = some 6;
}

abbrev leaf : Row
leaf = record {
  name = "c.json";
  path = "c.json";
  kind = file;
  file_paths = "c.json" ∷ [];
  total_size = some 2;
}

abbrev ticked_paths : List String
ticked_paths = "c.json" ∷ "a/w.bin" ∷ []

filter_tree-Justified_example :
    (truthy "json" ≡ false → filter_tree lower tree "json" ≡ tree)
    × (truthy "json" ≡ true
        → Justified lower "json" (filter_tree lower tree "json")
          × ((test : Row → Bool)
              → any_row (λ r. test r && matches lower "json" r) (filter_tree lower tree "json")
                ≡ any_row (λ r. test r && matches lower "json" r) tree)
          × ((test : Row → Bool)
              → any_row test (filter_tree lower tree "json") ≡ true
              → any_row test tree ≡ true)
          × (has_rows (filter_tree lower tree "json") ≡ any_row (matches lower "json") tree))
filter_tree-Justified_example = filter_tree-Justified lower "json" tree
