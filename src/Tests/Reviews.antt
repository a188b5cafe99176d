-- ===== src/Tests/Reviews.antt =====
-- The review of an estimate on concrete inputs.
use modelshelf.Common.{
  String, [], ◌∷◌, true, false, Option, none, some, is_some, all, ◌≡◌, refl, Ordering,
}
use modelshelf.Common.Scan.{trim, split_slash}
use modelshelf.Queue.Filters.{provider_value}
use modelshelf.Common.Sets.{has}
use modelshelf.NewTask.Form.{
  SelectableFile, DownloadEstimate, initial, edit, default_revision, can_estimate, estimate_key_of,
  temporary_mirror, has_complete_model_id,
}
use modelshelf.NewTask.Estimate.{
  Preflight, request_of, estimate_is_current, estimate_replied, settled, timer_fired, controlled,
  rendered, inputs_effect, same_dependencies, invalidate_estimate,
}
use modelshelf.NewTask.Review.{
  Choice, selected_files, selectable_files, uses_gguf_variants, valid_selection, storage_sufficient,
  selected_files_size, display_size, display_reused_size, display_transfer_size, submit_disabled,
}
use modelshelf.Tests.Forms.{answer_to, answered}

abbrev same_order : String → String → Ordering
same_order left right = Ordering.eq

abbrev weights : SelectableFile
weights = record { path = "w.bin"; size = some 5; sha256 = none }

abbrev config : SelectableFile
config = record { path = "c.json"; size = some 2; sha256 = none }

abbrev pub estimate : Option DownloadEstimate
estimate = some (record (answer_to (request_of initial)) {
  selectable_files = some (weights ∷ config ∷ []);
  reusable_paths = some ("c.json" ∷ []);
  available_storage_bytes = some 6;
})

abbrev choice : Choice
choice = record {
  select_files = true;
  selected_paths = "c.json" ∷ "w.bin" ∷ [];
  expanded_paths = [];
}

abbrev state : Preflight
state = record answered { estimate = estimate }

no_variants : uses_gguf_variants estimate ≡ false
unfolding uses_gguf_variants
no_variants = refl

is_valid : valid_selection estimate choice.selected_paths ≡ true
unfolding valid_selection uses_gguf_variants selected_files has
is_valid = refl

sizes_known :
    all (λ f. is_some f.size) (selected_files choice.selected_paths (selectable_files estimate))
    ≡ true
unfolding selected_files has
sizes_known = refl

enabled : submit_disabled state choice ≡ false
unfolding submit_disabled storage_sufficient display_transfer_size display_size display_reused_size
    selected_files selected_files_size has valid_selection uses_gguf_variants estimate_is_current
    estimate_replied settled timer_fired controlled rendered inputs_effect same_dependencies edit
    default_revision invalidate_estimate can_estimate estimate_key_of temporary_mirror trim
    has_complete_model_id provider_value split_slash
enabled = refl
