-- ===== src/NewTask/Choices/Valid.antt =====
-- What the choices that can be made have in common.
use modelshelf.Common.{
  ◌==◌, String, List, [], ◌∷◌, length, Bool, true, false, not, ◌&&◌, ◌||◌, Option, ◌≡◌, refl, subst,
  All, str_eq, arith, eq_iff, eq_refl, Bool-cases, inl, inr, Ordering,
}
use modelshelf.Common.Sets.{has, Distinct}
use modelshelf.FileTree.Build.{Row, build_tree}
use modelshelf.FileTree.Show.{normalized_query}
use modelshelf.FileTree.Members.{Stands, FilesIn, RowsIn-build_tree, RowsIn-filter_tree, All-Stands}
use modelshelf.NewTask.Form.{SelectableFile, DownloadEstimate}
use modelshelf.NewTask.Review.{
  Choice, selectable_files, uses_gguf_variants, valid_selection, select_all, is_empty,
}
use modelshelf.NewTask.Review.Ticks.{has-toggle_selected_paths}
use modelshelf.NewTask.Review.Selectable.{paths_of}
use modelshelf.NewTask.Review.Sorted.{Distinct-toggle_selected_paths}
use modelshelf.NewTask.Choices.Counts.{Among, length-selected_files}
use modelshelf.NewTask.Choices.{
  Pressed, switched, all_pressed, none_pressed, row_ticked, folder_toggled, variant_picked,
  tree_files, chosen, visible, Offered, Reach, at_first, press,
}

module _ (locale_compare : String → String → Ordering) (lower : String → String) where
  -- What holds of every choice that can be made without variants
  record Sound (estimate : Option DownloadEstimate) (c : Choice) : Type 0 where
    among : Among (selectable_files estimate) c.selected_paths
    differ : Distinct c.selected_paths
    empty_when_off : c.select_files ≡ false → c.selected_paths ≡ []

  All-has :
      (files : List SelectableFile) (p : String) (ps : List String)
      → All (λ x. has x (paths_of files) ≡ true) ps
      → has p ps ≡ true
      → has p (paths_of files) ≡ true
  unfolding has
  All-has files p [] all h = ground (arith, h)
  All-has files p (q ∷ qs) (hq, all) h = elim (Bool-cases (str_eq q p)) [
    | inl same ↦ subst (λ x. has x (paths_of files) ≡ true) ((eq_iff q p).0 same) hq
    | inr other ↦ All-has files p qs all (ground (arith, h, other))
  ]

  FilesIn-imp :
      (P Q : String → Type 0) (files : List SelectableFile)
      → ((p : String) → P p → Q p)
      → FilesIn P (tree_files files)
      → FilesIn Q (tree_files files)
  FilesIn-imp P Q [] f h = tt
  FilesIn-imp P Q (g ∷ gs) f (hg, h) = (f g.path hg, FilesIn-imp P Q gs f h)

  FilesIn-tree_files :
      (files : List SelectableFile)
      → FilesIn (λ p. has p (paths_of files) ≡ true) (tree_files files)
  unfolding has
  FilesIn-tree_files [] = tt
  FilesIn-tree_files (f ∷ fs) = (
    rw (eq_refl f.path) refl,
    FilesIn-imp (λ p. has p (paths_of fs) ≡ true) (λ p. has p (paths_of (f ∷ fs)) ≡ true) fs
        (λ p h. ground (arith, h)) (FilesIn-tree_files fs),
  )

  -- A row of the tree holds selectable files only, whatever the filter is.
  row-Among :
      (estimate : Option DownloadEstimate) (query : String) (r : Row)
      → Stands r (visible locale_compare lower estimate query)
      → Among (selectable_files estimate) r.file_paths
  unfolding visible
  row-Among estimate query r at p =
      let files = selectable_files estimate in
      let In = λ (x : String). has x (paths_of files) ≡ true in
      All-has files p r.file_paths (
        All-Stands In r (visible locale_compare lower estimate query)
          (RowsIn-filter_tree In lower (normalized_query lower query)
            (build_tree locale_compare (tree_files files))
            (RowsIn-build_tree In locale_compare (tree_files files) (FilesIn-tree_files files)))
          at)

  Sound-ticked :
      (estimate : Option DownloadEstimate) (r : Row) (checked : Bool) (c : Choice)
      → c.select_files ≡ true
      → Among (selectable_files estimate) r.file_paths
      → Sound estimate c
      → Sound estimate (chosen locale_compare lower estimate (row_ticked r checked) c)
  unfolding chosen
  Sound-ticked estimate r checked c on within s = record {
    among = λ p h. ground (
      arith,
      h,
      has-toggle_selected_paths locale_compare p r.file_paths checked c.selected_paths,
      within p,
      s.among p,
    );
    differ = Distinct-toggle_selected_paths locale_compare r.file_paths checked c.selected_paths;
    empty_when_off = λ off. ground (arith, on, off);
  }

  Sound-chosen :
      (estimate : Option DownloadEstimate) (query : String) (pressed : Pressed) (c : Choice)
      → uses_gguf_variants estimate ≡ false
      → Distinct (paths_of (selectable_files estimate))
      → Offered locale_compare lower estimate query c pressed
      → Sound estimate c
      → Sound estimate (chosen locale_compare lower estimate pressed c)
  unfolding chosen has select_all
  Sound-chosen estimate query (switched true) c u d o s = record {
    among = s.among;
    differ = s.differ;
    empty_when_off = λ off. ground (arith, off);
  }
  Sound-chosen estimate query (switched false) c u d o s = record {
    among = λ p h. ground (arith, h);
    differ = tt;
    empty_when_off = λ off. refl;
  }
  Sound-chosen estimate query all_pressed c u d o s = record {
    among = λ p h. h;
    differ = d;
    empty_when_off = λ off. ground (arith, o, off);
  }
  Sound-chosen estimate query none_pressed c u d o s = record {
    among = λ p h. ground (arith, h);
    differ = tt;
    empty_when_off = λ off. refl;
  }
  Sound-chosen estimate query (row_ticked r checked) c u d (on, _, at) s =
      Sound-ticked estimate r checked c on (row-Among estimate query r at) s
  Sound-chosen estimate query (folder_toggled path) c u d o s = record {
    among = s.among;
    differ = s.differ;
    empty_when_off = s.empty_when_off;
  }
  Sound-chosen estimate query (variant_picked label) c u d (_, offered) s =
      ground (arith, u, offered)

  Reach-Sound :
      (estimate : Option DownloadEstimate) (c : Choice)
      → uses_gguf_variants estimate ≡ false
      → Distinct (paths_of (selectable_files estimate))
      → Reach locale_compare lower estimate c
      → Sound estimate c
  unfolding has
  Reach-Sound estimate _ u d at_first = record {
    among = λ p h. ground (arith, h);
    differ = tt;
    empty_when_off = λ off. refl;
  }
  Reach-Sound estimate _ u d (press c query pressed offered r) =
      Sound-chosen estimate query pressed c u d offered (Reach-Sound estimate c u d r)

  length-is_empty :
      (ps : List String) → not (is_empty ps) ≡ (not (is_empty ps) && length ps == length ps)
  length-is_empty ps = ground arith

  -- However the user ticks in the tree, filters it and presses the buttons, where no variants are
  -- offered and the paths of the estimate's files differ: the choice is valid exactly if it is not
  -- empty, it names only files of the estimate and none twice, and nothing stays chosen once the
  -- choice is switched off.
  pub Reach-valid_selection :
      (estimate : Option DownloadEstimate) (c : Choice)
      → uses_gguf_variants estimate ≡ false
      → Distinct (paths_of (selectable_files estimate))
      → Reach locale_compare lower estimate c
      → (valid_selection estimate c.selected_paths ≡ not (is_empty c.selected_paths))
        × Among (selectable_files estimate) c.selected_paths
        × Distinct c.selected_paths
        × ((c.select_files || is_empty c.selected_paths) ≡ true)
  unfolding valid_selection
  Reach-valid_selection estimate c u d r =
      let s = Reach-Sound estimate c u d r in
      let same =
        length-selected_files (selectable_files estimate) c.selected_paths d s.differ s.among in
      (rw (u, same) (ground arith), s.among, s.differ, ground (arith, s.empty_when_off))
