-- ===== src/FileTree/Show/Filter.antt =====
-- What the filter of the tree keeps.
use modelshelf.Common.{
  String, Bool, true, false, ◌||◌, ◌&&◌, truthy, ◌≡◌, refl, arith, Bool-cases, inl, inr,
}
use modelshelf.FileTree.Build.{Row, Rows, no_rows, row}
use modelshelf.FileTree.Show.{matches, keep_matching, filter_tree, has_rows}

-- Whether a row at any depth passes a test.
pub any_row : (Row → Bool) → Rows → Bool
any_row test no_rows = false
any_row test (row r children more) = test r || any_row test children || any_row test more

no_rows-any_row :
    (test : Row → Bool) (rows : Rows) → has_rows rows ≡ false → any_row test rows ≡ false
unfolding any_row
no_rows-any_row test no_rows h = refl
no_rows-any_row test (row r children more) h = ground arith

module _ (lower : String → String) (query : String) where
  -- Every row matches the query or stands above one that does.
  pub Justified : Rows → Type 0
  Justified no_rows = Unit
  Justified (row r children more) =
      ((matches lower query r || any_row (matches lower query) children) ≡ true)
      × Justified children
      × Justified more

  any_row-keep_matching :
      (test : Row → Bool) (rows : Rows)
      → any_row (λ r. test r && matches lower query r) (keep_matching lower query rows)
        ≡ any_row (λ r. test r && matches lower query r) rows
  unfolding any_row keep_matching
  any_row-keep_matching test no_rows = refl
  any_row-keep_matching test (row r children more) =
      elim (Bool-cases (matches lower query r || has_rows (keep_matching lower query children))) [
        | inl kept ↦
            rw kept
              (ground (arith, any_row-keep_matching test children, any_row-keep_matching test more))
        | inr dropped ↦ rw dropped (
            ground (
              arith,
              dropped,
              any_row-keep_matching test children,
              any_row-keep_matching test more,
              no_rows-any_row (λ r'. test r' && matches lower query r')
                  (keep_matching lower query children),
            ))
      ]

  any_row-within :
      (test : Row → Bool) (rows : Rows)
      → any_row test (keep_matching lower query rows) ≡ true
      → any_row test rows ≡ true
  unfolding any_row keep_matching
  any_row-within test no_rows h = h
  any_row-within test (row r children more) h =
      elim (Bool-cases (matches lower query r || has_rows (keep_matching lower query children))) [
        | inl kept ↦
            ground (arith, rw kept at h, any_row-within test children, any_row-within test more)
        | inr dropped ↦ ground (arith, rw dropped at h, any_row-within test more)
      ]

  has_rows-any_row :
      (rows : Rows)
      → Justified rows
      → has_rows rows ≡ true
      → any_row (matches lower query) rows ≡ true
  unfolding any_row Justified
  has_rows-any_row no_rows j h = ground arith
  has_rows-any_row (row r children more) (j, below, rest) h = ground (arith, j)

  keep_matching-Justified : (rows : Rows) → Justified (keep_matching lower query rows)
  unfolding Justified keep_matching
  keep_matching-Justified no_rows = tt
  keep_matching-Justified (row r children more) =
      elim (Bool-cases (matches lower query r || has_rows (keep_matching lower query children))) [
        | inl kept ↦ rw kept (
          ground (
            arith,
            kept,
            has_rows-any_row (keep_matching lower query children)
                (keep_matching-Justified children),
          ),
          keep_matching-Justified children,
          keep_matching-Justified more,
        )
        | inr dropped ↦ rw dropped (keep_matching-Justified more)
      ]

  has_rows-keep_matching :
      (rows : Rows) → has_rows (keep_matching lower query rows) ≡ any_row (matches lower query) rows
  unfolding keep_matching any_row
  has_rows-keep_matching no_rows = refl
  has_rows-keep_matching (row r children more) =
      ground (arith, has_rows-keep_matching children, has_rows-keep_matching more)

  -- With a filter, the rows that are kept are rows of the tree, at any depth; every row that matches
  -- is kept, and every row that is kept matches or stands above one that does. Nothing is shown
  -- exactly if no row matches. Without a filter the tree is shown as it is.
  pub filter_tree-Justified :
      (rows : Rows)
      → (truthy query ≡ false → filter_tree lower rows query ≡ rows)
        × (truthy query ≡ true
            → Justified (filter_tree lower rows query)
              × ((test : Row → Bool)
                  → any_row (λ r. test r && matches lower query r) (filter_tree lower rows query)
                    ≡ any_row (λ r. test r && matches lower query r) rows)
              × ((test : Row → Bool)
                  → any_row test (filter_tree lower rows query) ≡ true
                  → any_row test rows ≡ true)
              × (has_rows (filter_tree lower rows query) ≡ any_row (matches lower query) rows))
  unfolding filter_tree
  filter_tree-Justified rows = (
    λ q. rw q refl,
    λ q. rw q (
      keep_matching-Justified rows,
      λ test. any_row-keep_matching test rows,
      λ test. any_row-within test rows,
      has_rows-keep_matching rows,
    ),
  )
