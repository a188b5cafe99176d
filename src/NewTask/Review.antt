-- ===== src/NewTask/Review.antt =====
-- The review of the estimate: the files that are chosen, the sizes that are shown, and whether the
-- download may be started.
pub mod Ticks
pub mod Sizes
pub mod Selectable
pub mod Sorted
use modelshelf.Common.{
  ℕ, ◌+◌, ◌-◌, ◌==◌, leb, ltb, String, List, [], ◌∷◌, ◌++◌, Bool, true, false, ◌&&◌, ◌||◌, not,
  Option, none, some, is_some, get_or, if◌then◌else◌, keep, all, find, length, map, str_eq,
  Ordering,
}
use modelshelf.Common.Sets.{StringSet, has, add_all, delete_all, delete, add, of_list}
use modelshelf.NewTask.Form.{SelectableFile, GgufVariant, DownloadEstimate, Duplicate}
use modelshelf.NewTask.Estimate.{Preflight, estimate_is_current}

-- The state of the choice.
pub record Choice : Type 0 where
  pub select_files : Bool
  pub selected_paths : List String
  pub expanded_paths : StringSet

-- The effect after a change of the estimate's provider, source or revisions.
abbrev pub nothing_chosen : Choice
nothing_chosen = record { select_files = false; selected_paths = []; expanded_paths = [] }

abbrev pub same_paths : List String → List String → Bool
same_paths [] [] = true
same_paths (p ∷ ps) (q ∷ qs) = str_eq p q && same_paths ps qs
same_paths _ _ = false

abbrev pub flag : Option Bool → Bool
flag none = false
flag (some b) = b

abbrev pub available_variants : Option DownloadEstimate → List GgufVariant
available_variants none = []
available_variants (some e) = get_or e.gguf_variants []

abbrev pub selectable_files : Option DownloadEstimate → List SelectableFile
selectable_files none = []
selectable_files (some e) = get_or e.selectable_files []

abbrev pub is_empty {ℓ} : {A : Type ℓ} → List A → Bool
is_empty [] = true
is_empty (x ∷ xs) = false

abbrev pub offers_variants : Option DownloadEstimate → Bool
offers_variants none = false
offers_variants (some e) = flag e.gguf_variant_selection_available

unfoldable pub uses_gguf_variants : Option DownloadEstimate → Bool
uses_gguf_variants estimate =
    offers_variants estimate && not (is_empty (available_variants estimate))

unfoldable pub selected_variant : List String → List GgufVariant → Option GgufVariant
selected_variant paths variants = find (λ v. same_paths v.paths paths) variants

unfoldable pub selected_files : List String → List SelectableFile → List SelectableFile
selected_files paths files = keep (λ f. has f.path paths) files

abbrev pub sum_sizes : List SelectableFile → ℕ
sum_sizes [] = 0
sum_sizes (f ∷ fs) = get_or f.size 0 + sum_sizes fs

unfoldable pub selected_files_size : List SelectableFile → Option ℕ
selected_files_size files = if all (λ f. is_some f.size) files then some (sum_sizes files) else none

unfoldable pub valid_selection : Option DownloadEstimate → List String → Bool
valid_selection estimate paths =
    if uses_gguf_variants estimate
    then is_some (selected_variant paths (available_variants estimate))
    else not (is_empty paths)
      && length (selected_files paths (selectable_files estimate)) == length paths

abbrev pub variant_size : Option GgufVariant → Option ℕ
variant_size none = none
variant_size (some v) = v.total_size

abbrev pub total_size_of : Option DownloadEstimate → Option ℕ
total_size_of none = none
total_size_of (some e) = e.total_size

unfoldable pub display_size : Option DownloadEstimate → Choice → Option ℕ
display_size estimate c =
    if c.select_files
    then if uses_gguf_variants estimate
      then variant_size (selected_variant c.selected_paths (available_variants estimate))
      else selected_files_size (selected_files c.selected_paths (selectable_files estimate))
    else total_size_of estimate

abbrev pub reusable_paths_of : Option DownloadEstimate → List String
reusable_paths_of none = []
reusable_paths_of (some e) = get_or e.reusable_paths []

abbrev pub reused_size_of : Option DownloadEstimate → Option ℕ
reused_size_of none = none
reused_size_of (some e) = e.reused_size

abbrev pub transfer_size_of : Option DownloadEstimate → Option ℕ
transfer_size_of none = none
transfer_size_of (some e) = e.transfer_size

unfoldable pub display_reused_size : Option DownloadEstimate → Choice → Option ℕ
display_reused_size estimate c =
    if c.select_files
    then some (
        sum_sizes (
          keep (λ f. has f.path (reusable_paths_of estimate))
            (selected_files c.selected_paths (selectable_files estimate))))
    else reused_size_of estimate

-- `Math.max(0, size - reused)`
abbrev pub transfer_of : Option ℕ → Option ℕ → Option ℕ → Option ℕ
transfer_of (some size) (some reused) otherwise = some (size - reused)
transfer_of _ _ otherwise = otherwise

unfoldable pub display_transfer_size : Option DownloadEstimate → Choice → Option ℕ
display_transfer_size estimate c =
    transfer_of (display_size estimate c) (display_reused_size estimate c)
      (transfer_size_of estimate)

abbrev pub available_storage : Option DownloadEstimate → Option ℕ
available_storage none = none
available_storage (some e) = e.available_storage_bytes

abbrev pub reported_sufficient : Option DownloadEstimate → Option Bool
reported_sufficient none = none
reported_sufficient (some e) = e.storage_sufficient

abbrev pub fits : Option ℕ → Option ℕ → Option Bool → Option Bool
fits (some size) (some free) reported = some (leb size free)
fits _ _ reported = reported

unfoldable pub storage_sufficient : Option DownloadEstimate → Choice → Option Bool
storage_sufficient estimate c =
    fits (display_transfer_size estimate c) (available_storage estimate)
      (reported_sufficient estimate)

abbrev pub is_false : Option Bool → Bool
is_false (some false) = true
is_false _ = false

-- `disabled` of the button that submits the form
unfoldable pub submit_disabled : Preflight → Choice → Bool
submit_disabled st c =
    not (estimate_is_current st)
    || is_false (storage_sufficient st.estimate c)
    || (c.select_files && not (valid_selection st.estimate c.selected_paths))

unfoldable pub toggle_expanded_path : String → StringSet → StringSet
toggle_expanded_path path current =
    if has path current then delete path current else add path current

abbrev pub in_locale : Ordering → Bool
in_locale Ordering.gt = false
in_locale _ = true

-- How the browser's locale orders two texts.
module _ (locale_compare : String → String → Ordering) where
  -- `sort` is stable.
  pub place : String → List String → List String
  place p [] = p ∷ []
  place p (q ∷ qs) = if in_locale (locale_compare p q) then p ∷ q ∷ qs else q ∷ place p qs

  pub sort_paths : List String → List String
  unfolding place
  sort_paths [] = []
  sort_paths (p ∷ ps) = place p (sort_paths ps)

  unfoldable pub toggle_selected_paths : List String → Bool → List String → List String
  unfolding sort_paths
  toggle_selected_paths paths checked current =
      let next = of_list current in
      sort_paths (if checked then add_all paths next else delete_all paths next)

-- The buttons "All" and "None", and the choice of a variant by its label.
unfoldable pub select_all : Option DownloadEstimate → List String
select_all estimate = map (λ f. f.path) (selectable_files estimate)

unfoldable pub pick_variant : String → Option DownloadEstimate → List String → List String
pick_variant label estimate current =
    elim (find (λ v. str_eq v.label label) (available_variants estimate)) [
      | none ↦ current
      | some v ↦ v.paths
    ]
