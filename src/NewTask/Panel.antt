-- ===== src/NewTask/Panel.antt =====
-- What "Review the download" shows of the estimate and of the choice, and the buttons of the form.
pub mod Buttons
pub mod Actions
pub mod Variants
use modelshelf.Common.{
  ℕ, ltb, ◌==◌, String, List, [], ◌∷◌, ◌++◌, Bool, true, false, ◌&&◌, ◌||◌, not, Option, none, some,
  is_some, get_or, if◌then◌else◌, keep, length, map, str_eq, truthy, ◌&◌, Ordering,
}
use modelshelf.Common.Scan.{trim, includes}
use modelshelf.Format.Bytes.{format_bytes}
use modelshelf.Fields.Texts.{spaced}
use modelshelf.Task.{TaskStatus}
use modelshelf.Queue.Filters.{status_value}
use modelshelf.Selection.{selection_summary}
use modelshelf.NewTask.Form.{
  idle, loading, ready, failed_lookup, LookupState, GgufVariant, DuplicateKind, artifact, task,
  Duplicate, DownloadEstimate, estimate_key_of,
}
use modelshelf.NewTask.Estimate.{Preflight, estimate_is_current}
use modelshelf.NewTask.Review.{
  Choice, available_variants, selectable_files, selected_files, selected_variant,
  uses_gguf_variants, valid_selection, flag, is_empty, is_false, display_size, display_reused_size,
  display_transfer_size, available_storage, storage_sufficient, submit_disabled,
}
use modelshelf.NewTask.Submit.{Submission}

-- The part that depends on the state of the lookup
pub data Panel : Type 0 where
  nothing prompt checking : Panel
  rejected : String → Panel
  reviewed : DownloadEstimate → Panel

abbrev pub review_if : Bool → Option DownloadEstimate → Panel
review_if current none = nothing
review_if current (some e) = if current then reviewed e else nothing

unfoldable pub panel : Preflight → Panel
panel st = elim st.estimate_lookup [
  | idle ↦ prompt
  | loading ↦ checking
  | ready ↦ review_if (str_eq st.estimate_key (estimate_key_of st.inputs)) st.estimate
  | failed_lookup ↦
      rejected
        (st.estimate_error & ". Check the ID, revision and provider credentials before submitting.")
]

abbrev pub duplicate_of : Option DownloadEstimate → Option Duplicate
duplicate_of none = none
duplicate_of (some e) = e.duplicate

unfoldable pub duplicate : Preflight → Choice → Option Duplicate
duplicate st c =
    if estimate_is_current st && not c.select_files then duplicate_of st.estimate else none

abbrev pub is_artifact : DuplicateKind → Bool
is_artifact artifact = true
is_artifact task = false

abbrev pub task_word : Option TaskStatus → String
task_word none = "running"
task_word (some status) = spaced (status_value status)

unfoldable pub duplicate_texts : Duplicate → String × String
duplicate_texts d =
    if is_artifact d.kind
    then (
      "Already on this shelf",
      "This exact immutable revision is already stored. Starting another download would not create a second artifact.",
    )
    else (
      "Download task already exists",
      "This exact immutable revision already has a "
          & task_word d.task_status
          & " task. A duplicate submission would reuse it.",
    )

abbrev pub variant_count : Option GgufVariant → Option ℕ
variant_count none = none
variant_count (some v) = some v.file_count

abbrev pub file_count_of : Option DownloadEstimate → Option ℕ
file_count_of none = none
file_count_of (some e) = e.file_count

unfoldable pub display_file_count : Option DownloadEstimate → Choice → Option ℕ
display_file_count estimate c =
    if c.select_files
    then if uses_gguf_variants estimate
      then variant_count (selected_variant c.selected_paths (available_variants estimate))
      else some (length (selected_files c.selected_paths (selectable_files estimate)))
    else file_count_of estimate

pub record Stat : Type 0 where
  pub label : String
  pub value : String

abbrev pub bytes_or : String → Option ℕ → String
bytes_or otherwise none = otherwise
bytes_or otherwise (some bytes) = format_bytes bytes

-- `!!size`
abbrev pub nonzero : Option ℕ → Bool
nonzero none = false
nonzero (some n) = ltb 0 n

abbrev pub reuse_stats : Option ℕ → Option ℕ → List Stat
reuse_stats transfer none = []
reuse_stats transfer (some reused) =
    if ltb 0 reused
    then record { label = "Network download"; value = bytes_or "Size unavailable" transfer }
      ∷ record { label = "Reused from shelf"; value = format_bytes reused }
      ∷ []
    else []

abbrev pub storage_stat : Option ℕ → List Stat
storage_stat none = []
storage_stat (some free) = record { label = "Storage available"; value = format_bytes free } ∷ []

abbrev pub storage_warning : Option Bool → Option ℕ → Option String
storage_warning sufficient transfer =
    if is_false sufficient
    then some
        ("Insufficient storage for the estimated " & bytes_or "download" transfer & " of new data.")
    else none

-- The browser writes a count in its locale.
module _ (count_text : ℕ → String) where
  abbrev pub count_or : String → Option ℕ → String
  count_or otherwise none = otherwise
  count_or otherwise (some n) = count_text n

  unfoldable pub stats : Option DownloadEstimate → Choice → List Stat
  stats estimate c =
      record {
        label =
            if nonzero (display_reused_size estimate c)
            then "Artifact content"
            else "Estimated download";
        value = bytes_or "Size unavailable" (display_size estimate c);
      }
      ∷ record { label = "Files"; value = count_or "Unknown" (display_file_count estimate c) }
      ∷ (reuse_stats (display_transfer_size estimate c) (display_reused_size estimate c)
          ++ storage_stat (available_storage estimate))

  abbrev pub files_word : Option ℕ → String
  files_word none = "files"
  files_word (some n) = if n == 1 then "file" else "files"

  abbrev pub size_part : Option ℕ → String
  size_part none = ""
  size_part (some bytes) = " · " & format_bytes bytes

  abbrev pub selected_text : Option ℕ → Option ℕ → String
  selected_text count size =
      count_or "" count & " " & files_word count & " selected" & size_part size

  -- How the browser's locale orders two texts, and its lower case
  module _ (locale_compare : String → String → Ordering) (lower : String → String) where
    -- The texts below the files: a summary with the count, or what is missing
    unfoldable pub choice_texts : Option DownloadEstimate → Choice → List String
    choice_texts estimate c =
        if valid_selection estimate c.selected_paths
        then selection_summary locale_compare lower (some c.selected_paths)
          ∷ selected_text (display_file_count estimate c) (display_size estimate c)
          ∷ []
        else if uses_gguf_variants estimate
        then "Select one GGUF variant." ∷ []
        else "Select at least one file." ∷ []

-- Whether a choice is offered at all, and the texts of its switch
abbrev pub selection_available : Option DownloadEstimate → Bool
selection_available none = false
selection_available (some e) = flag e.file_selection_available

unfoldable pub offers_choice : Option DownloadEstimate → Bool
offers_choice estimate =
    selection_available estimate
    && (uses_gguf_variants estimate || not (is_empty (selectable_files estimate)))

unfoldable pub switch_texts : Option DownloadEstimate → String × String
switch_texts estimate =
    if uses_gguf_variants estimate
    then (
      "Download a specific GGUF variant",
      "Only complete, unambiguous variants are offered. All shards in the selected variant are downloaded together.",
    )
    else (
      "Select files to download",
      "Advanced option for repositories that contain several independent formats or variants.",
    )

-- The variants whose label holds the text of the filter
unfoldable pub visible_variants :
    (String → String) → Option DownloadEstimate → String → List GgufVariant
visible_variants lower estimate filter =
    if truthy (lower (trim filter))
    then keep (λ v. includes (lower v.label) (lower (trim filter))) (available_variants estimate)
    else available_variants estimate
