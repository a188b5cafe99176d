-- ===== src/Tests/Panels.antt =====
-- The review panel on concrete inputs.
use mathlib.Core.List.{Memᴰ}
use mathlib.Core.List.Memᴰ.{head, cases_cons}
use modelshelf.Common.{
  [], ◌∷◌, true, false, Option, none, some, get_or, truthy, show, ◌≡◌, refl, inl, inr, Bool,
}
use modelshelf.Common.Scan.{trim, split_slash, includes, begins_with}
use modelshelf.Common.Sets.{has}
use modelshelf.Format.Bytes.{format_bytes, format_fraction, scale, nearest, scaled_text}
use modelshelf.Queue.Filters.{provider_value}
use modelshelf.NewTask.Form.{
  GgufVariant, DownloadEstimate, Duplicate, initial, edit, default_revision, can_estimate,
  estimate_key_of, temporary_mirror, has_complete_model_id,
}
use modelshelf.NewTask.Estimate.{
  request_of, estimate_is_current, estimate_replied, settled, timer_fired, controlled, rendered,
  inputs_effect, same_dependencies, invalidate_estimate,
}
use modelshelf.NewTask.Review.{
  Choice, nothing_chosen, available_variants, uses_gguf_variants, selected_variant, selected_files,
  valid_selection, pick_variant, storage_sufficient, display_transfer_size, display_size,
  display_reused_size, submit_disabled,
}
use modelshelf.NewTask.Submit.{Submission}
use modelshelf.NewTask.Panel.{
  stats, display_file_count, panel, reviewed, duplicate, is_artifact, storage_warning,
  visible_variants,
}
use modelshelf.NewTask.Panel.Buttons.{start_download, start_button, primary_action}
use modelshelf.NewTask.Panel.Actions.{primary_action-Answers}
use modelshelf.NewTask.Panel.Variants.{same_label, same_files, Apart, pick_variant-selected_variant}
use modelshelf.Tests.Forms.{Answers, no_url, answer_to, answered, answered-Reach}
use modelshelf.Tests.Samples.{same_text}

abbrev submission : Submission
submission = record {
  delay_download = false;
  scheduled_at = "";
  artifact_alias = "";
  busy = false;
  error = "";
}

starts :
    primary_action answered nothing_chosen submission
    ≡ start_download (start_button answered nothing_chosen submission)
unfolding primary_action duplicate storage_sufficient display_transfer_size display_size
    display_reused_size estimate_is_current estimate_replied settled timer_fired controlled rendered
    inputs_effect same_dependencies edit default_revision invalidate_estimate can_estimate
    estimate_key_of temporary_mirror trim has_complete_model_id provider_value split_slash
starts = refl

enabled : (start_button answered nothing_chosen submission).disabled ≡ false
unfolding start_button submit_disabled storage_sufficient display_transfer_size display_size
    display_reused_size estimate_is_current estimate_replied settled timer_fired controlled rendered
    inputs_effect same_dependencies edit default_revision invalidate_estimate can_estimate
    estimate_key_of temporary_mirror trim has_complete_model_id provider_value split_slash
enabled = refl

primary_action-Answers_example :
    (e : DownloadEstimate) × (panel answered ≡ reviewed e)
    × Answers (request_of answered.inputs) e
    × (storage_warning
          (storage_sufficient answered.estimate nothing_chosen)
          (display_transfer_size answered.estimate nothing_chosen)
        ≡ none)
    × (false ≡ true → valid_selection answered.estimate [] ≡ true)
    × ((d : Duplicate)
        → false ≡ false
        → e.duplicate ≡ some d
        → (truthy (get_or d.task_id "") ≡ false) × (is_artifact d.kind ≡ false))
primary_action-Answers_example =
    primary_action-Answers no_url Answers answered nothing_chosen submission
      (start_button answered nothing_chosen submission) answered-Reach starts enabled

abbrev q4 : GgufVariant
q4 = record { label = "Q4"; paths = "m-q4.gguf" ∷ []; total_size = some 4; file_count = 1 }

abbrev q8 : GgufVariant
q8 = record {
  label = "Q8";
  paths = "m-q8-1.gguf" ∷ "m-q8-2.gguf" ∷ [];
  total_size = some 2048;
  file_count = 2;
}

abbrev two_variants : Option DownloadEstimate
two_variants = some (record (answer_to (request_of initial)) {
  gguf_variant_selection_available = some true;
  gguf_variants = some (q4 ∷ q8 ∷ []);
})

variants_offered : uses_gguf_variants two_variants ≡ true
unfolding uses_gguf_variants
variants_offered = refl

only_q8 :
    (same : GgufVariant → GgufVariant → Bool)
    → same q4 q8 ≡ false
    → (y : GgufVariant) → Memᴰ y (q8 ∷ [])
    → same q4 y ≡ false
only_q8 same h y m = elim (cases_cons m) [ inl e ↦ rw e h | inr m ↦ elim m [ ] ]

different_labels : Apart same_label (available_variants two_variants)
different_labels = (only_q8 same_label refl, ((λ y m. elim m [ ]), tt))

different_files : Apart same_files (available_variants two_variants)
different_files = (only_q8 same_files refl, ((λ y m. elim m [ ]), tt))

stands : Memᴰ q8 (visible_variants same_text two_variants "8")
unfolding visible_variants trim includes begins_with
stands = head refl

pick_variant-selected_variant_example :
    (selected_variant (pick_variant "Q8" two_variants []) (available_variants two_variants)
      ≡ some q8)
    × (valid_selection two_variants (pick_variant "Q8" two_variants []) ≡ true)
pick_variant-selected_variant_example =
    pick_variant-selected_variant same_text two_variants "8" q8 [] variants_offered different_labels
      different_files stands

abbrev q8_chosen : Choice
q8_chosen = record {
  select_files = true;
  selected_paths = "m-q8-1.gguf" ∷ "m-q8-2.gguf" ∷ [];
  expanded_paths = [];
}

q8_stats : stats show two_variants q8_chosen ≡ (
    record { label = "Estimated download"; value = "2.0 KiB" }
    ∷ record { label = "Files"; value = "2" }
    ∷ [])
unfolding stats display_size display_reused_size display_transfer_size display_file_count
    uses_gguf_variants selected_variant selected_files has format_bytes format_fraction scale
    nearest scaled_text show
q8_stats = refl
