-- ===== src/Artifacts/Details.antt =====
-- The details of an artifact: opening them, its alias and its storage.
pub mod View
pub mod Saving
pub mod Replies
use modelshelf.Common.{
  ℕ, String, List, Bool, true, false, Option, none, some, get_or, if◌then◌else◌, str_eq, truthy,
}
use modelshelf.Common.Scan.{trim}
use modelshelf.Task.{Provider}
use modelshelf.Queue.Page.{Reply, ok, failed_with}
use modelshelf.Artifacts.Shelf.{Artifact, Shelf, replace_artifact}

pub record FileEntry : Type 0 where
  pub path : String
  pub size : ℕ
  pub sha256 : String

pub record ManifestSource : Type 0 where
  pub provider : Provider
  pub id : String
  pub requested_revision : String
  pub resolved_revision : String
  pub url : Option String
  pub selected_paths : Option (List String)

pub record ArtifactManifest : Type 0 where
  pub schema_version : ℕ
  pub artifact_id : String
  pub name : String
  pub version : String
  pub format : Option String
  pub source : ManifestSource
  pub content_sha256 : String
  pub created_at : String
  pub total_size : ℕ
  pub file_count : ℕ
  pub files : List FileEntry

pub record ArtifactDetail : Type 0 where
  pub summary : Artifact
  pub manifest : ArtifactManifest

pub record ArtifactStorageStats : Type 0 where
  pub artifact_id : String
  pub logical_size : ℕ
  pub allocated_size : ℕ
  pub shared_logical_size : ℕ
  pub shared_allocated_size : ℕ
  pub shared_file_count : ℕ
  pub exclusive_logical_size : ℕ
  pub exclusive_allocated_size : ℕ
  pub exclusive_file_count : ℕ
  pub metadata_allocated_size : ℕ
  pub estimated_reclaimable_size : ℕ
  pub scanned_at : String

-- The state variables of the details.
pub record Details : Type 0 where
  pub shown_artifact_id : Option String
  pub artifact_detail : Option ArtifactDetail
  pub detail_loading : Bool
  pub detail_error : String
  pub alias_input : String
  pub saving_alias : Bool
  pub storage_stats : Option ArtifactStorageStats
  pub storage_stats_loading : Bool
  pub storage_stats_error : String

-- The two effects when an artifact is opened, up to the request
unfoldable pub artifact_opened : String → Details → Details
artifact_opened id d = record d {
  shown_artifact_id = if truthy id then some id else d.shown_artifact_id;
  artifact_detail = none;
  detail_loading = true;
  detail_error = "";
  storage_stats = none;
  storage_stats_error = "";
}

-- and its reply; `active` is the variable of the effect.
unfoldable pub detail_replied : Bool → Reply ArtifactDetail → Details → Details
detail_replied false reply d = d
detail_replied true (ok detail) d = record d {
  artifact_detail = some detail;
  alias_input = get_or detail.summary.alias "";
  detail_loading = false;
}
detail_replied true (failed_with message) d = record d {
  detail_error = message;
  detail_loading = false;
}

-- `detail`: what the dialog shows.
unfoldable pub shown_detail : Details → Option ArtifactDetail
shown_detail d = elim d.artifact_detail [
  | none ↦ none
  | some detail ↦ elim d.shown_artifact_id [
    | none ↦ none
    | some id ↦ if str_eq detail.summary.artifact_id id then some detail else none
  ]
]

pub record AliasRequest : Type 0 where
  pub artifact_id : String
  pub alias : Option String

abbrev pub or_null : String → Option String
or_null t = if truthy t then some t else none

-- `saveAlias` up to its request
unfoldable pub alias_begins : Details → Option AliasRequest × Details
alias_begins d = elim d.artifact_detail [
  | none ↦ (none, d)
  | some detail ↦ (
    some
        (record { artifact_id = detail.summary.artifact_id; alias = or_null (trim d.alias_input) }),
    record d { saving_alias = true; detail_error = "" },
  )
]

abbrev pub with_summary : Artifact → Option ArtifactDetail → Option ArtifactDetail
with_summary summary none = none
with_summary summary (some detail) = some (record detail { summary = summary })

-- and from the reply on.
unfoldable pub alias_replied : Reply Artifact → Details × Shelf → Details × Shelf
alias_replied (ok summary) (d, shelf) = (
  record d {
    artifact_detail = with_summary summary d.artifact_detail;
    alias_input = get_or summary.alias "";
    saving_alias = false;
  },
  record shelf { items = replace_artifact summary shelf.items },
)
alias_replied (failed_with message) (d, shelf) =
    (record d { detail_error = message; saving_alias = false }, shelf)

-- `calculateStorageStats` up to its request, which names the artifact
unfoldable pub stats_begins : Details → Option String × Details
stats_begins d = elim d.artifact_detail [
  | none ↦ (none, d)
  | some detail ↦ (
    some detail.summary.artifact_id,
    record d { storage_stats_loading = true; storage_stats_error = "" },
  )
]

-- and from the reply on.
unfoldable pub stats_replied : Reply ArtifactStorageStats → Details → Details
stats_replied (ok stats) d = record d { storage_stats = some stats; storage_stats_loading = false }
stats_replied (failed_with message) d = record d {
  storage_stats_error = message;
  storage_stats_loading = false;
}
