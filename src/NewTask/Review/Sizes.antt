-- ===== src/NewTask/Review/Sizes.antt =====
-- The sizes that the review shows, and when the download may be started.
use modelshelf.Common.{
  ◌≢◌, ◌⊎◌, ℕ, ◌+◌, ◌≤◌, List, [], ◌∷◌, Bool, true, false, not, Option, none, some, is_some, keep,
  all, ◌≡◌, refl, ap, ◌∙◌, arith,
}
use modelshelf.Common.Sets.{has}
use modelshelf.NewTask.Form.{SelectableFile, DownloadEstimate}
use modelshelf.NewTask.Estimate.{Preflight, estimate_is_current}
use modelshelf.NewTask.Review.{
  Choice, sum_sizes, selected_files, selectable_files, uses_gguf_variants, valid_selection,
  selected_files_size, reusable_paths_of, display_size, display_reused_size, display_transfer_size,
  available_storage, storage_sufficient, submit_disabled, reported_sufficient,
}

sum_sizes-keep :
    (p : SelectableFile → Bool) (fs : List SelectableFile)
    → sum_sizes fs ≡ sum_sizes (keep p fs) + sum_sizes (keep (λ f. not (p f)) fs)
sum_sizes-keep p [] = refl
sum_sizes-keep p (f ∷ fs) = ground (arith, sum_sizes-keep p fs)

module _ (estimate : Option DownloadEstimate) (c : Choice) where
  abbrev picked : List SelectableFile
  picked = selected_files c.selected_paths (selectable_files estimate)

  display_size-sum_sizes :
      c.select_files ≡ true
      → uses_gguf_variants estimate ≡ false
      → all (λ f. is_some f.size) picked ≡ true
      → display_size estimate c ≡ some (sum_sizes picked)
  unfolding display_size selected_files_size
  display_size-sum_sizes s v known = rw s (rw v (rw known refl))

  display_reused_size-sum_sizes :
      c.select_files ≡ true
      → display_reused_size estimate c
        ≡ some (sum_sizes (keep (λ f. has f.path (reusable_paths_of estimate)) picked))
  unfolding display_reused_size
  display_reused_size-sum_sizes s = rw s refl

-- For a choice of files whose sizes are known, where no variants are offered, the transfer that is
-- shown is the size of exactly the
-- picked files that cannot be reused, and it makes up the size shown together with what is reused.
pub display_transfer_size-sum_sizes :
    (estimate : Option DownloadEstimate) (c : Choice)
    → c.select_files ≡ true
    → uses_gguf_variants estimate ≡ false
    → let picked = selected_files c.selected_paths (selectable_files estimate) in
      all (λ f. is_some f.size) picked ≡ true
      → let reused = sum_sizes (keep (λ f. has f.path (reusable_paths_of estimate)) picked) in
        let fresh = sum_sizes (keep (λ f. not (has f.path (reusable_paths_of estimate))) picked) in
        (display_transfer_size estimate c ≡ some fresh)
        × (display_reused_size estimate c ≡ some reused)
        × (display_size estimate c ≡ some (reused + fresh))
unfolding display_transfer_size
display_transfer_size-sum_sizes estimate c s v known =
    let split =
      sum_sizes-keep (λ f. has f.path (reusable_paths_of estimate))
        (selected_files c.selected_paths (selectable_files estimate)) in
    let size = display_size-sum_sizes estimate c s v known in
    let reused = display_reused_size-sum_sizes estimate c s in
    (rw size (rw reused (ground (arith, split))), reused, size ∙ ap some split)

-- The button that starts the download is enabled only for an estimate that is current, if the
-- transfer fits the free storage as far as both are known, and the server did not report too little
-- storage where they are not; and a choice of files must be one variant's or hold as many selectable
-- files as paths, at least one.
pub submit_disabled_lem :
    (st : Preflight) (c : Choice)
    → submit_disabled st c ≡ false
    → (estimate_is_current st ≡ true)
      × ((size free : ℕ)
          → display_transfer_size st.estimate c ≡ some size
          → available_storage st.estimate ≡ some free
          → size ≤ free)
      × ((display_transfer_size st.estimate c ≡ none) ⊎ (available_storage st.estimate ≡ none)
          → ◌≢◌ {A = Option Bool} (reported_sufficient st.estimate) (some false))
      × (c.select_files ≡ true → valid_selection st.estimate c.selected_paths ≡ true)
unfolding submit_disabled storage_sufficient
submit_disabled_lem st c enabled = ground arith
