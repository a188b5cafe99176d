-- ===== src/FileTree/Members.antt =====
-- Every row of the tree, at any depth, holds paths of the files only.
use modelshelf.Common.{
  String, List, [], ◌∷◌, Option, none, some, str_eq, All, All-append, Bool-cases, inl, inr, ◌⊎◌,
  ◌≡◌, Ordering, subst, sym, truthy, ◌||◌,
}
use modelshelf.FileTree.Build.{
  File, Nodes, end, node, own_file, insert, insert_all, parts_of, extend, Row, Rows, no_rows, row,
  paths_of_rows, own_paths, row_of, row_in_order, place_row, finalize, build_tree,
}
use modelshelf.FileTree.Show.{matches, has_rows, keep_matching, filter_tree}

-- The row stands in the tree, at any depth.
abbrev pub Stands : Row → Rows → Type 0
Stands r no_rows = ⊥
Stands r (row q children more) = (r ≡ q) ⊎ (Stands r children ⊎ Stands r more)

module _ (P : String → Type 0) where
  abbrev OwnIn : Option File → Type 0
  OwnIn none = Unit {0}
  OwnIn (some f) = P f.path

  abbrev NodesIn : Nodes → Type 0
  NodesIn end = Unit {0}
  NodesIn (node name path own children more) = OwnIn own × NodesIn children × NodesIn more

  -- The files of the list, and the rows with those below and after them
  abbrev pub FilesIn : List File → Type 0
  FilesIn [] = Unit {0}
  FilesIn (f ∷ fs) = P f.path × FilesIn fs

  abbrev pub RowsIn : Rows → Type 0
  RowsIn no_rows = Unit {0}
  RowsIn (row r children more) = All P r.file_paths × RowsIn children × RowsIn more

  OwnIn-own_file :
      (parts : List String) (f : File) (own : Option File)
      → P f.path
      → OwnIn own
      → OwnIn (own_file parts f own)
  OwnIn-own_file [] f own h k = h
  OwnIn-own_file (part ∷ parts) f own h k = k

  NodesIn-insert :
      (f : File) (parts : List String) (path : String) (nodes : Nodes)
      → P f.path
      → NodesIn nodes
      → NodesIn (insert f parts path nodes)
  unfolding insert
  NodesIn-insert f [] path nodes h k = k
  NodesIn-insert f (name ∷ rest) path end h k =
      (OwnIn-own_file rest f none h tt, NodesIn-insert f rest (extend path name) end h tt, tt)
  NodesIn-insert f (name ∷ rest) path (node n p own children more) h (ho, hc, hm) =
      elim (Bool-cases (str_eq n name)) [
        | inl same ↦ rw same (
          OwnIn-own_file rest f own h ho,
          NodesIn-insert f rest (extend path name) children h hc,
          hm,
        )
        | inr other ↦ rw other (ho, hc, NodesIn-insert f (name ∷ rest) path more h hm)
      ]

  NodesIn-insert_all :
      (fs : List File) (nodes : Nodes) → FilesIn fs → NodesIn nodes → NodesIn (insert_all fs nodes)
  unfolding insert_all
  NodesIn-insert_all [] nodes h k = k
  NodesIn-insert_all (f ∷ fs) nodes (hf, hfs) k =
      NodesIn-insert_all fs (insert f (parts_of f.path) "" nodes) hfs
        (NodesIn-insert f (parts_of f.path) "" nodes hf k)

  All-own_paths : (own : Option File) → OwnIn own → All P (own_paths own)
  All-own_paths none h = tt
  All-own_paths (some f) h = (h, tt)

  All-paths_of_rows : (rows : Rows) → RowsIn rows → All P (paths_of_rows rows)
  All-paths_of_rows no_rows h = tt
  All-paths_of_rows (row r children more) (hr, hc, hm) =
      All-append P r.file_paths (paths_of_rows more) hr (All-paths_of_rows more hm)

  module _ (locale_compare : String → String → Ordering) where
    RowsIn-place_row :
        (r : Row) (children rows : Rows)
        → All P r.file_paths
        → RowsIn children
        → RowsIn rows
        → RowsIn (place_row locale_compare r children rows)
    unfolding place_row
    RowsIn-place_row r children no_rows hr hc h = (hr, hc, tt)
    RowsIn-place_row r children (row q below more) hr hc (hq, hb, hm) =
        elim (Bool-cases (row_in_order locale_compare r q)) [
          | inl here ↦ rw here (hr, hc, (hq, hb, hm))
          | inr later ↦ rw later (hq, hb, RowsIn-place_row r children more hr hc hm)
        ]

    RowsIn-finalize : (nodes : Nodes) → NodesIn nodes → RowsIn (finalize locale_compare nodes)
    unfolding finalize row_of
    RowsIn-finalize end h = tt
    RowsIn-finalize (node name path own children more) (ho, hc, hm) =
        let below = RowsIn-finalize children hc in
        RowsIn-place_row (row_of name path own (finalize locale_compare children))
          (finalize locale_compare children) (finalize locale_compare more)
          (All-append P (own_paths own) (paths_of_rows (finalize locale_compare children))
            (All-own_paths own ho) (All-paths_of_rows (finalize locale_compare children) below))
          below (RowsIn-finalize more hm)

    pub RowsIn-build_tree : (fs : List File) → FilesIn fs → RowsIn (build_tree locale_compare fs)
    unfolding build_tree
    RowsIn-build_tree fs h = RowsIn-finalize (insert_all fs end) (NodesIn-insert_all fs end h tt)

  RowsIn-keep_matching :
      (lower : String → String) (query : String) (rows : Rows)
      → RowsIn rows
      → RowsIn (keep_matching lower query rows)
  unfolding keep_matching
  RowsIn-keep_matching lower query no_rows h = tt
  RowsIn-keep_matching lower query (row r children more) (hr, hc, hm) =
      elim (Bool-cases (matches lower query r || has_rows (keep_matching lower query children))) [
        | inl kept ↦ rw kept (
          hr,
          RowsIn-keep_matching lower query children hc,
          RowsIn-keep_matching lower query more hm,
        )
        | inr dropped ↦ rw dropped (RowsIn-keep_matching lower query more hm)
      ]

  pub RowsIn-filter_tree :
      (lower : String → String) (query : String) (rows : Rows)
      → RowsIn rows
      → RowsIn (filter_tree lower rows query)
  unfolding filter_tree
  RowsIn-filter_tree lower query rows h = elim (Bool-cases (truthy query)) [
    | inl some_query ↦ rw some_query (RowsIn-keep_matching lower query rows h)
    | inr no_query ↦ rw no_query h
  ]

  pub All-Stands : (r : Row) (rows : Rows) → RowsIn rows → Stands r rows → All P r.file_paths
  All-Stands r no_rows h at = absurd at
  All-Stands r (row q children more) (hq, hc, hm) (inl same) =
      subst (λ x. All P x.file_paths) (sym same) hq
  All-Stands r (row q children more) (hq, hc, hm) (inr (inl below)) = All-Stands r children hc below
  All-Stands r (row q children more) (hq, hc, hm) (inr (inr after)) = All-Stands r more hm after
