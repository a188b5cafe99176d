-- ===== src/Tests/Choices.antt =====
-- Choices of files and lookups on concrete inputs.
use modelshelf.Common.{[], ◌∷◌, true, false, ◌||◌, not, some, ◌≡◌, refl, inl, inr}
use modelshelf.Common.Sets.{has, add_all, add, of_list, Distinct}
use modelshelf.Common.Scan.{split_slash, trim}
use modelshelf.FileTree.Build.{
  Row, file, build_tree, insert_all, insert, finalize, place_row, row_in_order, row_of,
}
use modelshelf.FileTree.Show.{filter_tree, normalized_query}
use modelshelf.FileTree.Members.{Stands}
use modelshelf.NewTask.Review.{
  Choice, selectable_files, uses_gguf_variants, toggle_selected_paths, nothing_chosen,
  valid_selection, is_empty,
}
use modelshelf.NewTask.Review.Selectable.{paths_of}
use modelshelf.NewTask.Choices.{Reach, at_first, press, switched, row_ticked, chosen, visible}
use modelshelf.NewTask.Choices.Counts.{Among}
use modelshelf.NewTask.Choices.Valid.{Reach-valid_selection}
use modelshelf.Tests.Reviews.{estimate}
use modelshelf.Tests.Samples.{no_order, same_text}

abbrev config_row : Row
config_row = record {
  name = "c.json";
  path = "c.json";
  kind = file;
  file_paths = "c.json" ∷ [];
  total_size = some 2;
}

abbrev on : Choice
on = record nothing_chosen { select_files = true }

abbrev ticked : Choice
ticked = record on { selected_paths = "c.json" ∷ [] }

no_variants : uses_gguf_variants estimate ≡ false
unfolding uses_gguf_variants
no_variants = refl

config-Stands : Stands config_row (visible no_order same_text estimate "")
unfolding visible filter_tree normalized_query build_tree insert_all insert finalize place_row
    row_in_order row_of split_slash trim
config-Stands = inr (inr (inl refl))

is_reached : Reach no_order same_text estimate ticked
unfolding chosen toggle_selected_paths add_all add has of_list
is_reached =
    press on "" (row_ticked config_row true) (refl, no_variants, config-Stands)
      (press nothing_chosen "" (switched true) tt at_first)

files_differ : Distinct (paths_of (selectable_files estimate))
unfolding has
files_differ = (refl, (refl, tt))

Reach-valid_selection_example :
    (valid_selection estimate ticked.selected_paths ≡ not (is_empty ticked.selected_paths))
    × Among (selectable_files estimate) ticked.selected_paths
    × Distinct ticked.selected_paths
    × ((ticked.select_files || is_empty ticked.selected_paths) ≡ true)
Reach-valid_selection_example =
    Reach-valid_selection no_order same_text estimate ticked no_variants files_differ is_reached
