-- ===== src/FileTree/Show.antt =====
-- `filterTree`, `folders`, and what `Rows` shows of a tree.
pub mod Ticks
pub mod Filter
use modelshelf.Common.{
  ℕ, ◌+◌, ltb, ◌==◌, String, List, [], ◌∷◌, ◌++◌, Bool, true, false, ◌&&◌, ◌||◌, not, Option, none,
  some, is_some, if◌then◌else◌, keep, length, truthy, ◌&◌,
}
use modelshelf.Common.Scan.{includes, trim}
use modelshelf.Common.Sets.{StringSet, has}
use modelshelf.Format.Bytes.{format_bytes}
use modelshelf.FileTree.Build.{File, Kind, directory, file, Row, Rows, no_rows, row}

abbrev pub is_directory_kind : Kind → Bool
is_directory_kind directory = true
is_directory_kind file = false

abbrev pub is_directory : Row → Bool
is_directory r = is_directory_kind r.kind

abbrev pub has_rows : Rows → Bool
has_rows no_rows = false
has_rows (row r children more) = true

-- `toLocaleLowerCase` is the browser's.
module _ (lower : String → String) where
  unfoldable pub matches : String → Row → Bool
  matches query r = includes (lower r.path) query

  unfoldable pub keep_matching : String → Rows → Rows
  unfolding matches
  keep_matching query no_rows = no_rows
  keep_matching query (row r children more) =
      let below = keep_matching query children in
      let rest = keep_matching query more in
      if matches query r || has_rows below then row r below rest else rest

  unfoldable pub filter_tree : Rows → String → Rows
  unfolding keep_matching
  filter_tree rows query = if truthy query then keep_matching query rows else rows

  unfoldable pub normalized_query : String → String
  normalized_query query = lower (trim query)

pub folders : Rows → List String
folders no_rows = []
folders (row r children more) =
    let below = folders children in
    let rest = folders more in if is_directory r then (r.path ∷ below) ++ rest else rest

-- What a row needs of the choice: how many of its paths are chosen.
unfoldable pub selected_count : StringSet → Row → ℕ
selected_count selected r = length (keep (λ p. has p selected) r.file_paths)

unfoldable pub checked : StringSet → Row → Bool
unfolding selected_count
checked selected r = selected_count selected r == length r.file_paths

unfoldable pub partially_checked : StringSet → Row → Bool
unfolding selected_count checked
partially_checked selected r = ltb 0 (selected_count selected r) && not (checked selected r)

-- The tick box reports `next`, the name the opposite of the tick; both with the paths of the row.
unfoldable pub box_changed : StringSet → Row → Bool → Bool
unfolding partially_checked
box_changed selected r next = if partially_checked selected r then true else next

unfoldable pub name_clicked : StringSet → Row → Bool
unfolding checked
name_clicked selected r = not (checked selected r)

abbrev pub is_open : StringSet → Bool → Row → Bool
is_open expanded searching r = is_directory r && (searching || has r.path expanded)

abbrev pub size_text : Option ℕ → Option String
size_text none = none
size_text (some size) = some (format_bytes size)

-- `toLocaleString` of a number is the browser's.
module _ (show_number : ℕ → String) where
  row_detail : Row → String
  row_detail r =
      if is_directory r
      then show_number (length r.file_paths)
        & " "
        & (if length r.file_paths == 1 then "file" else "files")
      else "file"

  -- One row on the screen.
  pub record ShownRow : Type 0 where
    pub depth : ℕ
    pub row_path : String
    pub label : String
    pub detail : String
    pub size : Option String
    pub opened : Bool
    pub ticked : Bool
    pub partial : Bool

  shown_row : StringSet → Bool → StringSet → ℕ → Row → ShownRow
  unfolding row_detail checked partially_checked
  shown_row expanded searching selected depth r = record {
    depth = depth;
    row_path = r.path;
    label = r.name & (if is_directory r then "/" else "");
    detail = row_detail r;
    size = size_text r.total_size;
    opened = is_open expanded searching r;
    ticked = checked selected r;
    partial = partially_checked selected r;
  }

  -- `Rows` with a choice, from top to bottom.
  pub shown_rows : StringSet → Bool → StringSet → ℕ → Rows → List ShownRow
  unfolding shown_row
  shown_rows expanded searching selected depth no_rows = []
  shown_rows expanded searching selected depth (row r children more) =
      let below = shown_rows expanded searching selected (depth + 1) children in
      let rest = shown_rows expanded searching selected depth more in
      (shown_row expanded searching selected depth r
        ∷ (if is_open expanded searching r then below else []))
      ++ rest
