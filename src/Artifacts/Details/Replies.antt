-- ===== src/Artifacts/Details/Replies.antt =====
-- What the replies make of the details, in time and late.
use modelshelf.Common.{String, true, false, some, get_or, truthy, ◌≡◌, ◌≢◌, arith, eq_refl}
use modelshelf.Common.Scan.{trim}
use modelshelf.Queue.Page.{ok, failed_with}
use modelshelf.Artifacts.Shelf.{Artifact, Shelf, without_artifact}
use modelshelf.Artifacts.Shelf.Updates.{ids, replace_artifact_lem}
use modelshelf.Artifacts.Details.{
  ArtifactDetail, ArtifactStorageStats, Details, artifact_opened, detail_replied, shown_detail,
  or_null, alias_begins, alias_replied, stats_replied,
}

-- An alias is saved for the artifact that is loaded, trimmed, or taken away if nothing is left of
-- it. When the reply is for the artifact that is shown, the dialog shows its new summary and alias,
-- and the list changes in the rows of that artifact alone; an error keeps all of these and is shown.
-- Saving is over either way.
pub alias_replied_lem :
    (d : Details) (shelf : Shelf) (detail : ArtifactDetail) (summary : Artifact) (message : String)
    → shown_detail d ≡ some detail
    → summary.artifact_id ≡ detail.summary.artifact_id
    → let (request, waiting) = alias_begins d in
      (request
        ≡ some (record {
          artifact_id = detail.summary.artifact_id;
          alias = or_null (trim d.alias_input);
        }))
      × (let (after, list) = alias_replied (ok summary) (waiting, shelf) in
          (shown_detail after ≡ some (record detail { summary = summary }))
          × (after.alias_input ≡ get_or summary.alias "")
          × (after.saving_alias ≡ false)
          × (ids list.items ≡ ids shelf.items)
          × (without_artifact summary.artifact_id list.items
              ≡ without_artifact summary.artifact_id shelf.items))
      × (let (failed, same) = alias_replied (failed_with message) (waiting, shelf) in
          (shown_detail failed ≡ some detail)
          × (failed.detail_error ≡ message)
          × (failed.saving_alias ≡ false)
          × (same ≡ shelf))
unfolding shown_detail alias_begins alias_replied
alias_replied_lem d shelf detail summary message shown same =
    ground (arith, replace_artifact_lem summary shelf.items, shown, same)

-- When a reply with the storage of an artifact comes only after the details of another are opened
-- and loaded, the dialog shows the other artifact together with the storage of the first.
pub stats_replied_late :
    (d : Details) (stats : ArtifactStorageStats) (other : ArtifactDetail)
    → truthy other.summary.artifact_id ≡ true
    → stats.artifact_id ≢ other.summary.artifact_id
    → let late =
        stats_replied
          (ok stats)
          (detail_replied true (ok other) (artifact_opened other.summary.artifact_id d)) in
      (shown_detail late ≡ some other)
      × (late.storage_stats ≡ some stats)
      × ((shown : ArtifactStorageStats)
          → late.storage_stats ≡ some shown
          → shown.artifact_id ≢ other.summary.artifact_id)
unfolding shown_detail stats_replied detail_replied artifact_opened
stats_replied_late d stats other given differ =
    ground (arith, eq_refl other.summary.artifact_id, given, differ)
