-- ===== src/FileTree/Build.antt =====
-- `buildTree`: the files are put into nested maps by the parts of their paths, and the maps are
-- turned into sorted rows.
pub mod Insertion
pub mod Totals
use modelshelf.Common.{
  ℕ, ◌+◌, String, List, [], ◌∷◌, ◌++◌, Bool, true, false, Option, none, some, if◌then◌else◌, keep,
  str_eq, truthy, ◌&◌, Ordering,
}
use modelshelf.Common.Scan.{split_slash}

-- `FileTreeFile`
pub record File : Type 0 where
  pub path : String
  pub size : Option ℕ

-- A map of `MutableNode`s in the order of insertion: a node has its name, which is its key, its path,
-- its file, its children, and the nodes after it.
pub data Nodes : Type 0 where
  end : Nodes
  node : String → String → Option File → Nodes → Nodes → Nodes

abbrev pub parts_of : String → List String
parts_of path = keep truthy (split_slash path)

abbrev pub extend : String → String → String
extend path name = if truthy path then path & "/" & name else name

abbrev pub own_file : List String → File → Option File → Option File
own_file [] file old = some file
own_file (p ∷ ps) file old = old

-- One round of the loop: walk down the parts, and make the nodes that are missing.
unfoldable pub insert : File → List String → String → Nodes → Nodes
insert file [] path nodes = nodes
insert file (name ∷ rest) path end =
    node name (extend path name) (own_file rest file none) (insert file rest (extend path name) end)
      end
insert file (name ∷ rest) path (node n p own children more) =
    let deeper = insert file rest (extend path name) children in
    let further = insert file (name ∷ rest) path more in
    if str_eq n name
    then node n p (own_file rest file own) deeper more
    else node n p own children further

unfoldable pub insert_all : List File → Nodes → Nodes
insert_all [] nodes = nodes
insert_all (f ∷ fs) nodes = insert_all fs (insert f (parts_of f.path) "" nodes)

pub data Kind : Type 0 where
  directory file : Kind

-- A row, `FileTreeNode` without its children.
pub record Row : Type 0 where
  pub name : String
  pub path : String
  pub kind : Kind
  pub file_paths : List String
  pub total_size : Option ℕ

-- Rows with their children, and the rows after them.
pub data Rows : Type 0 where
  no_rows : Rows
  row : Row → Rows → Rows → Rows

abbrev pub paths_of_rows : Rows → List String
paths_of_rows no_rows = []
paths_of_rows (row r children more) = r.file_paths ++ paths_of_rows more

abbrev pub plus : Option ℕ → Option ℕ → Option ℕ
plus (some a) (some b) = some (a + b)
plus _ _ = none

-- The sum of the sizes of the rows, if all are known.
abbrev pub size_of_rows : Rows → Option ℕ
size_of_rows no_rows = some 0
size_of_rows (row r children more) = plus r.total_size (size_of_rows more)

abbrev pub own_paths : Option File → List String
own_paths none = []
own_paths (some f) = f.path ∷ []

abbrev pub own_size : Option File → Option ℕ
own_size none = some 0
own_size (some f) = f.size

abbrev pub kind_of : Rows → Kind
kind_of no_rows = file
kind_of (row r children more) = directory

unfoldable pub row_of : String → String → Option File → Rows → Row
row_of name path own children = record {
  name = name;
  path = path;
  kind = kind_of children;
  file_paths = own_paths own ++ paths_of_rows children;
  total_size = plus (own_size own) (size_of_rows children);
}

abbrev pub not_after : Ordering → Bool
not_after Ordering.gt = false
not_after _ = true

-- The comparator of `sort` is not positive: directories first, then by name.
abbrev pub kinds_in_order : Kind → Kind → Ordering → Bool
kinds_in_order directory file names = true
kinds_in_order file directory names = false
kinds_in_order directory directory names = not_after names
kinds_in_order file file names = not_after names

-- How the browser's locale orders two texts.
module _ (locale_compare : String → String → Ordering) where
  unfoldable pub row_in_order : Row → Row → Bool
  row_in_order left right =
      kinds_in_order left.kind right.kind (locale_compare left.name right.name)

  -- `sort` is stable.
  unfoldable pub place_row : Row → Rows → Rows → Rows
  unfolding row_in_order
  place_row r children no_rows = row r children no_rows
  place_row r children (row q below more) =
      if row_in_order r q
      then row r children (row q below more)
      else row q below (place_row r children more)

  unfoldable pub finalize : Nodes → Rows
  unfolding place_row row_of
  finalize end = no_rows
  finalize (node name path own children more) =
      let below = finalize children in place_row (row_of name path own below) below (finalize more)

  unfoldable pub build_tree : List File → Rows
  unfolding finalize insert_all
  build_tree files = finalize (insert_all files end)
