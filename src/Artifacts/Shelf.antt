-- ===== src/Artifacts/Shelf.antt =====
-- The list of artifacts: loading, loading more, deleting and renaming.
pub mod Updates
use modelshelf.Common.{
  ℕ, String, List, [], ◌∷◌, ◌++◌, Bool, true, false, not, Option, none, some, if◌then◌else◌, keep,
  map, str_eq,
}
use modelshelf.Task.{Provider}
use modelshelf.Queue.Page.{Reply, ok, failed_with}

-- `ArtifactSummary`
pub record Artifact : Type 0 where
  pub artifact_id : String
  pub name : String
  pub version : String
  pub provider : Provider
  pub source_id : String
  pub requested_revision : String
  pub resolved_revision : String
  pub total_size : ℕ
  pub file_count : ℕ
  pub created_at : String
  pub relative_path : String
  pub alias : Option String
  pub selection_digest : Option String
  pub selected_paths : Option (List String)

pub record ArtifactListing : Type 0 where
  pub items : List Artifact
  pub has_more : Bool

-- The state variables of the list.
pub record Shelf : Type 0 where
  pub items : List Artifact
  pub has_more : Bool
  pub loading : Bool
  pub error : String
  pub deleting_artifact_id : Option String

-- The timer of the effect, 180 ms after a change of a filter, up to the request
unfoldable pub list_begins : Shelf → Shelf
list_begins s = record s { loading = true; error = "" }

-- and its reply; `active` is the variable of the effect.
unfoldable pub shelf_listed : Bool → Reply ArtifactListing → Shelf → Shelf
shelf_listed false reply s = s
shelf_listed true (ok page) s = record s {
  items = page.items;
  has_more = page.has_more;
  loading = false;
}
shelf_listed true (failed_with message) s = record s { error = message; loading = false }

-- The reply to `loadMore`
unfoldable pub more_listed : Reply ArtifactListing → Shelf → Shelf
more_listed (ok page) s = record s {
  items = s.items ++ page.items;
  has_more = page.has_more;
  loading = false;
}
more_listed (failed_with message) s = record s { error = message; loading = false }

unfoldable pub without_artifact : String → List Artifact → List Artifact
without_artifact id items = keep (λ a. not (str_eq a.artifact_id id)) items

-- `deleteArtifact` up to its request
unfoldable pub artifact_deletion_begins : String → Shelf → Shelf
artifact_deletion_begins id s = record s { deleting_artifact_id = some id; error = "" }

-- and from the reply on; the second part is the result.
unfoldable pub artifact_deleted : String → Reply (Unit {0}) → Shelf → Shelf × Bool
unfolding without_artifact
artifact_deleted id (ok _) s =
    (record s { items = without_artifact id s.items; deleting_artifact_id = none }, true)
artifact_deleted id (failed_with message) s =
    (record s { error = message; deleting_artifact_id = none }, false)

-- `setItems` of `saveAlias`
unfoldable pub replace_artifact : Artifact → List Artifact → List Artifact
replace_artifact a items = map (λ b. if str_eq b.artifact_id a.artifact_id then a else b) items
