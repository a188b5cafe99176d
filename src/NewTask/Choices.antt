-- ===== src/NewTask/Choices.antt =====
-- The choice of files: the controls of the review together with the tree of files.
pub mod Counts
pub mod Valid
use modelshelf.Common.{
  String, List, [], map, Bool, true, false, not, Option, none, some, if◌then◌else◌, ◌≡◌, Ordering,
}
use modelshelf.FileTree.Build.{File, Row, Rows, build_tree}
use modelshelf.FileTree.Show.{filter_tree, normalized_query}
use modelshelf.FileTree.Members.{Stands}
use modelshelf.NewTask.Form.{SelectableFile, DownloadEstimate}
use modelshelf.NewTask.Review.{
  Choice, nothing_chosen, selectable_files, uses_gguf_variants, toggle_selected_paths,
  toggle_expanded_path, select_all, pick_variant,
}

-- The controls of the choice: the switch, the buttons "All" and "None", the tick box or the name
-- of a row with the tick that it asks for, the arrow of a folder, and a variant by its label.
pub data Pressed : Type 0 where
  switched : Bool → Pressed
  all_pressed none_pressed : Pressed
  row_ticked : Row → Bool → Pressed
  folder_toggled : String → Pressed
  variant_picked : String → Pressed

abbrev pub tree_files : List SelectableFile → List File
tree_files files = map (λ f. record { path = f.path; size = f.size }) files

-- How the browser's locale orders two texts, and its lower case
module _ (locale_compare : String → String → Ordering) (lower : String → String) where
  unfoldable pub chosen : Option DownloadEstimate → Pressed → Choice → Choice
  chosen estimate (switched checked) c = record c {
    select_files = checked;
    selected_paths = if checked then c.selected_paths else [];
  }
  chosen estimate all_pressed c = record c { selected_paths = select_all estimate }
  chosen estimate none_pressed c = record c { selected_paths = [] }
  chosen estimate (row_ticked r checked) c = record c {
    selected_paths = toggle_selected_paths locale_compare r.file_paths checked c.selected_paths;
  }
  chosen estimate (folder_toggled path) c = record c {
    expanded_paths = toggle_expanded_path path c.expanded_paths;
  }
  chosen estimate (variant_picked label) c = record c {
    selected_paths = pick_variant label estimate c.selected_paths;
  }

  -- The rows of the tree for the text of its filter
  unfoldable pub visible : Option DownloadEstimate → String → Rows
  visible estimate query =
      filter_tree lower (build_tree locale_compare (tree_files (selectable_files estimate)))
        (normalized_query lower query)

  -- Which controls are there, for the text of the filter
  abbrev pub Offered : Option DownloadEstimate → String → Choice → Pressed → Type 0
  Offered estimate query c (switched checked) = Unit {0}
  Offered estimate query c all_pressed =
      (c.select_files ≡ true) × (uses_gguf_variants estimate ≡ false)
  Offered estimate query c none_pressed =
      (c.select_files ≡ true) × (uses_gguf_variants estimate ≡ false)
  Offered estimate query c (row_ticked r checked) =
      (c.select_files ≡ true)
      × (uses_gguf_variants estimate ≡ false)
      × Stands r (visible estimate query)
  Offered estimate query c (folder_toggled path) =
      (c.select_files ≡ true) × (uses_gguf_variants estimate ≡ false)
  Offered estimate query c (variant_picked label) =
      (c.select_files ≡ true) × (uses_gguf_variants estimate ≡ true)

  -- The choices that can be made for an estimate.
  pub data Reach (estimate : Option DownloadEstimate) : Choice → Type 0 where
    at_first : Reach estimate nothing_chosen
    press :
        (c : Choice) (query : String) (pressed : Pressed)
        → Offered estimate query c pressed
        → Reach estimate c
        → Reach estimate (chosen estimate pressed c)
