-- ===== src/FileTree/Static.antt =====
-- `FileTree`: a tree of files without a choice, as the details of an artifact or of a task show it.
use modelshelf.Common.{
  ℕ, ◌==◌, String, List, [], Option, none, some, if◌then◌else◌, length, truthy, ◌&◌, Ordering,
}
use modelshelf.Format.Bytes.{format_bytes}
use modelshelf.FileTree.Build.{File, Row, Rows, no_rows, row, build_tree, directory, file, Kind}
use modelshelf.FileTree.Show.{filter_tree, normalized_query, folders}

-- The state of `FileTree`
pub record StaticTree : Type 0 where
  pub query : String
  pub expanded : List String

abbrev pub closed_tree : StaticTree
closed_tree = record { query = ""; expanded = [] }

abbrev pub size_or_missing : Option ℕ → String
size_or_missing none = "size unavailable"
size_or_missing (some size) = format_bytes size

-- How the browser's locale orders two texts, its lower case, and how it writes a number
module _ (locale_compare : String → String → Ordering) (lower : String → String)
    (show_number : ℕ → String) where
  abbrev pub count_of_files : ℕ → String
  count_of_files n = show_number n & " " & (if n == 1 then "file" else "files")

  -- The name of a part of the tree
  abbrev pub kind_name : Kind → Row → String
  kind_name directory r =
      r.name & "/ · " & count_of_files (length r.file_paths) & " · " & size_or_missing r.total_size
  kind_name file r = r.name & " · " & size_or_missing r.total_size

  unfoldable pub part_name : Row → String
  part_name r = kind_name r.kind r

  -- The parts from top to bottom, with those that are below a folder
  pub data Parts : Type 0 where
    no_parts : Parts
    part : String → String → Parts → Parts → Parts

  unfoldable pub parts : Rows → Parts
  unfolding part_name
  parts no_rows = no_parts
  parts (row r children more) = part r.path (part_name r) (parts children) (parts more)

  unfoldable pub visible_rows : List File → StaticTree → Rows
  visible_rows files t =
      filter_tree lower (build_tree locale_compare files) (normalized_query lower t.query)

  -- `expandedIds`: every folder while the tree is filtered
  unfoldable pub expanded_ids : List File → StaticTree → List String
  unfolding visible_rows
  expanded_ids files t =
      if truthy (normalized_query lower t.query) then folders (visible_rows files t) else t.expanded

  -- `onExpandedChange`
  unfoldable pub expanded_changed : List String → StaticTree → StaticTree
  expanded_changed ids t =
      if truthy (normalized_query lower t.query) then t else record t { expanded = ids }

  -- The count above the tree
  unfoldable pub heading_count : List File → String
  heading_count files = count_of_files (length files)
