-- ===== src/Artifacts/Details/View.antt =====
-- What the dialog with the details shows.
use modelshelf.Common.{
  ℕ, String, List, [], ◌∷◌, ◌++◌, Bool, ◌&&◌, not, Option, none, some, get_or, is_some,
  if◌then◌else◌, truthy, truthy?, str_eq, ◌&◌, Ordering,
}
use modelshelf.Common.Scan.{trim}
use modelshelf.Format.Bytes.{format_bytes}
use modelshelf.Source.{source_model_url}
use modelshelf.Selection.{selection_summary}
use modelshelf.Artifacts.Cards.{provider_label, title_of}
use modelshelf.Artifacts.Details.{ArtifactDetail, ArtifactStorageStats, Details}

-- The heading, and the name below an alias
unfoldable pub heading_of : Option ArtifactDetail → String × Option String
heading_of none = ("Artifact", none)
heading_of (some detail) = (
  title_of detail.summary,
  if truthy? detail.summary.alias then some detail.summary.name else none,
)

-- The button that saves the alias: its text, and whether it is disabled
unfoldable pub save_disabled : Details → ArtifactDetail → Bool
save_disabled d detail = str_eq (trim d.alias_input) (get_or detail.summary.alias "")

unfoldable pub save_text : Details → ArtifactDetail → String
save_text d detail =
    if truthy? detail.summary.alias && not (truthy (trim d.alias_input))
    then "Remove alias"
    else "Save alias"

-- `MetaTile`: a label with its text, and an address if it is a link
pub record Tile : Type 0 where
  pub label : String
  pub text : String
  pub href : Option String

abbrev pub plain_tile : String → String → Tile
plain_tile label text = record { label = label; text = text; href = none }

abbrev pub digest_tile : Option String → List Tile
digest_tile none = []
digest_tile (some digest) = if truthy digest then plain_tile "Selection digest" digest ∷ [] else []

-- `Stat` with its detail
pub record StorageStat : Type 0 where
  pub label : String
  pub value : String
  pub detail : String

-- `encodeURIComponent`, the texts of a count and of a date, the order of two texts and the lower case
-- are the browser's.
module _ (encode : String → String) (count_text : ℕ → String) (date_text : String → String)
    (locale_compare : String → String → Ordering) (lower : String → String) where
  unfoldable pub tiles : ArtifactDetail → List Tile
  tiles detail =
      let s = detail.summary in
      record {
        label = "Source";
        text = provider_label s.provider & " · " & s.source_id;
        href = source_model_url encode s.provider s.source_id (some s.resolved_revision);
      }
      ∷ plain_tile "Selection" (selection_summary locale_compare lower s.selected_paths)
      ∷ plain_tile "Resolved revision" s.resolved_revision
      ∷ plain_tile "Content" (count_text s.file_count & " files · " & format_bytes s.total_size)
      ∷ plain_tile "Content SHA-256" detail.manifest.content_sha256
      ∷ plain_tile "Added to shelf" (date_text s.created_at)
      ∷ (digest_tile s.selection_digest ++ plain_tile "Storage path" s.relative_path ∷ [])

  abbrev pub files_allocated : ℕ → ℕ → String
  files_allocated count bytes = count_text count & " files · " & format_bytes bytes & " allocated"

  unfoldable pub storage_stats_shown : ArtifactStorageStats → List StorageStat
  storage_stats_shown s =
      record {
        label = "Logical content";
        value = format_bytes s.logical_size;
        detail = "Manifest file sizes";
      }
      ∷ record {
        label = "Shared via hardlinks";
        value = format_bytes s.shared_logical_size;
        detail = files_allocated s.shared_file_count s.shared_allocated_size;
      }
      ∷ record {
        label = "Exclusive content";
        value = format_bytes s.exclusive_logical_size;
        detail = files_allocated s.exclusive_file_count s.exclusive_allocated_size;
      }
      ∷ record {
        label = "Estimated reclaimable";
        value = format_bytes s.estimated_reclaimable_size;
        detail =
            "Includes "
            & format_bytes s.metadata_allocated_size
            & " of manifest and directory metadata";
      }
      ∷ []

unfoldable pub calculate_text : Details → String
calculate_text d = if is_some d.storage_stats then "Recalculate" else "Calculate disk usage"
