-- ===== src/Tests/Shelves.antt =====
-- The shelf on concrete inputs.
use modelshelf.Common.{String, [], ◌∷◌, true, false, none, some, ◌≡◌, eq_iff, arith, refl, ◌≢◌}
use modelshelf.Task.{huggingface}
use modelshelf.Queue.Page.{Reply, ok, failed_with}
use modelshelf.Queue.Filters.{provider_value}
use modelshelf.Artifacts.Command.{read_line, add_command, artifact_alias}
use modelshelf.Artifacts.Command.Line.{read_line-add_command}
use modelshelf.Artifacts.Shell.{all_plain, escape, shell_argument, bare}
use modelshelf.Artifacts.Shelf.{Artifact, ArtifactListing, Shelf}
use modelshelf.Artifacts.Details.{
  ArtifactDetail, ArtifactStorageStats, Details, shown_detail, artifact_opened, detail_replied,
  stats_replied,
}
use modelshelf.Artifacts.Details.Replies.{stats_replied_late}

abbrev pub artifact : Artifact
artifact = record {
  artifact_id = "a";
  name = "A model";
  version = "1";
  provider = huggingface;
  source_id = "o/m";
  requested_revision = "main";
  resolved_revision = "c0ffee";
  total_size = 7;
  file_count = 1;
  created_at = "2026-09-21T00:00:00Z";
  relative_path = "o/m";
  alias = none;
  selection_digest = none;
  selected_paths = none;
}

abbrev other : Artifact
other = record artifact { artifact_id = "b" }

abbrev pub shelf : Shelf
shelf = record {
  items = artifact ∷ [];
  has_more = true;
  loading = false;
  error = "";
  deleting_artifact_id = none;
}

abbrev more_page : ArtifactListing
more_page = record { items = other ∷ []; has_more = false }

abbrev undeleted : Reply (Unit {0})
undeleted = failed_with "no"

abbrev pub detail : ArtifactDetail
detail = record {
  summary = artifact;
  manifest = record {
    schema_version = 1;
    artifact_id = "a";
    name = "A model";
    version = "1";
    format = none;
    source = record {
      provider = huggingface;
      id = "o/m";
      requested_revision = "main";
      resolved_revision = "c0ffee";
      url = none;
      selected_paths = none;
    };
    content_sha256 = "";
    created_at = "2026-09-21T00:00:00Z";
    total_size = 7;
    file_count = 1;
    files = [];
  };
}

abbrev other_detail : ArtifactDetail
other_detail = record detail { summary = other }

abbrev pub details : Details
details = record {
  shown_artifact_id = some "a";
  artifact_detail = some detail;
  detail_loading = false;
  detail_error = "";
  alias_input = " x ";
  saving_alias = false;
  storage_stats = none;
  storage_stats_loading = false;
  storage_stats_error = "";
}

abbrev pub named : Artifact
named = record artifact { alias = some "x" }

abbrev stats : ArtifactStorageStats
stats = record {
  artifact_id = "a";
  logical_size = 7;
  allocated_size = 8;
  shared_logical_size = 0;
  shared_allocated_size = 0;
  shared_file_count = 0;
  exclusive_logical_size = 7;
  exclusive_allocated_size = 8;
  exclusive_file_count = 1;
  metadata_allocated_size = 1;
  estimated_reclaimable_size = 9;
  scanned_at = "2026-09-21T00:00:00Z";
}

is_shown : shown_detail details ≡ some detail
unfolding shown_detail
is_shown = refl

others_differ : ◌≢◌ {A = String} "a" "b"
others_differ e = ground (arith, e, eq_iff "a" "b")

stats_replied_late_example :
    let late =
      stats_replied
        (ok stats)
        (detail_replied true (ok other_detail) (artifact_opened "b" details)) in
    (shown_detail late ≡ some other_detail)
    × (late.storage_stats ≡ some stats)
    × ((shown : ArtifactStorageStats) → late.storage_stats ≡ some shown → shown.artifact_id ≢ "b")
stats_replied_late_example = stats_replied_late details stats other_detail refl others_differ

abbrev quoted : Artifact
quoted = record artifact { source_id = "it's $5/x"; alias = some "b c" }

read_line-add_command_example :
    read_line bare
      "modelshelf add huggingface 'it'\"'\"'s $5/x' --revision c0ffee --artifact 'b c' --alias 'b c'"
    ≡ some (
        "modelshelf" ∷ "add" ∷ "huggingface" ∷ "it's $5/x" ∷ "--revision" ∷ "c0ffee" ∷ "--artifact"
        ∷ "b c" ∷ "--alias" ∷ "b c" ∷ [])
unfolding add_command provider_value artifact_alias shell_argument all_plain escape
read_line-add_command_example = read_line-add_command (λ t. t) quoted
