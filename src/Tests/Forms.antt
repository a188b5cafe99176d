-- ===== src/Tests/Forms.antt =====
-- The form of a new download on concrete inputs.
use modelshelf.Common.{String, true, false, Option, none, some, [], ◌≡◌, refl, arith}
use modelshelf.Common.Scan.{trim, split_slash}
use modelshelf.Queue.Filters.{provider_value}
use modelshelf.Task.{huggingface}
use modelshelf.NewTask.Form.{
  DownloadEstimate, ParsedUrl, Inputs, type_revision, pick_model, default_revision, edit,
  estimate_key_of, can_estimate, has_complete_model_id, temporary_mirror,
}
use modelshelf.NewTask.Estimate.{
  EstimateRequest, Preflight, opened, controlled, timer_fired, settled, estimate_replied, estimated,
  estimate_is_current, request_of, rendered, inputs_effect, same_dependencies, invalidate_estimate,
}
use modelshelf.NewTask.Current.{
  Reach, start, control, timer, answer, IsClean, estimate_is_current-Answers,
}

-- No text is a URL.
abbrev pub no_url : String → Option ParsedUrl
no_url t = none

abbrev pub answer_to : EstimateRequest → DownloadEstimate
answer_to r = record {
  provider = r.provider;
  source_id = r.id;
  requested_revision = r.revision;
  downloadable = true;
  resolved_revision = none;
  total_size = some 7;
  transfer_size = none;
  reused_size = none;
  reusable_paths = none;
  available_storage_bytes = none;
  required_storage_bytes = none;
  storage_sufficient = none;
  file_count = none;
  hub_url = none;
  metadata = [];
  file_selection_available = none;
  selectable_files = none;
  gguf_variant_selection_available = none;
  gguf_variants = none;
  gguf_auxiliary_files = none;
  duplicate = none;
}

abbrev pub Answers : EstimateRequest → DownloadEstimate → Type 0
Answers r e = e ≡ answer_to r

abbrev typed : Preflight
typed = controlled no_url (type_revision "main ") (controlled no_url (pick_model "o/m") opened)

-- What the form then asks for.
abbrev asked : Inputs
asked = record {
  provider = huggingface;
  id = "o/m";
  revision = "main ";
  disable_mirror = false;
  use_temporary_mirror = false;
  mirror_url = "";
  disable_proxy = false;
  revision_edited = false;
}

abbrev pub answered : Preflight
answered =
    settled (estimate_replied asked (estimated (answer_to (request_of asked))) (timer_fired typed))

asked-IsClean : IsClean asked
asked-IsClean = record { clean_id = omega arith; clean_revision = omega arith; clean_mirror = tt }

pub answered-Reach : Reach no_url Answers answered
answered-Reach = answer asked asked-IsClean (answer_to (request_of asked)) refl (
    timer (
      control (type_revision "main ") (omega arith)
        (control (pick_model "o/m") (omega arith) start)))

pub answered_current : estimate_is_current answered ≡ true
unfolding estimate_is_current estimate_replied settled timer_fired controlled rendered inputs_effect
    same_dependencies edit default_revision invalidate_estimate can_estimate estimate_key_of
    temporary_mirror trim has_complete_model_id provider_value split_slash
answered_current = refl

estimate_is_current-Answers_example :
    (e : DownloadEstimate) × (answered.estimate ≡ some e)
    × Answers (request_of answered.inputs) e
    × (e.downloadable ≡ true)
estimate_is_current-Answers_example =
    estimate_is_current-Answers no_url Answers answered answered-Reach answered_current
