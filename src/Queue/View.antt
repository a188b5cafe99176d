-- ===== src/Queue/View.antt =====
-- What the page of downloads shows: its lines, its columns for each layout, and the question before a
-- task is deleted.
pub mod Complete
use modelshelf.Common.{
  ℕ, ◌+◌, ◌==◌, leb, String, List, [], ◌∷◌, ◌++◌, Bool, true, false, ◌&&◌, ◌||◌, not, Option, none,
  some, get_or, if◌then◌else◌, keep, str_eq, truthy, show, ◌&◌,
}
use modelshelf.Format.Bytes.{format_bytes}
use modelshelf.Task.{
  TaskStatus, scheduled, queued, resolving, awaiting_confirmation, downloading, verifying,
  publishing, paused, cancelled, completed, failed, DownloadTask,
}
use modelshelf.Queue.Filters.{status_value}
use modelshelf.Queue.Page.{Limits, QueuePage}
use modelshelf.Queue.Order.{is_sortable}
use modelshelf.Queue.Cells.{Layout, wide, medium, compact}

-- `terminalStatuses`
unfoldable pub is_terminal : TaskStatus → Bool
is_terminal completed = true
is_terminal cancelled = true
is_terminal failed = true
is_terminal _ = false

abbrev pub has_completed : TaskStatus → Bool
has_completed completed = true
has_completed _ = false

-- The description, which for a completed task depends on the option that is offered
abbrev pub completed_description : Option ℕ → Bool → String
completed_description size true =
    "The task record and published artifact will be removed. Artifact logical size: "
    & format_bytes (get_or size 0)
    & ". Shared hardlinks can make the physical space released smaller."
completed_description size false =
    "The task record and any retained staging data will be removed. Its published artifact and model files will remain on the shelf."

unfoldable pub delete_description : DownloadTask → Bool → String
delete_description task delete_artifact =
    if has_completed task.status
    then completed_description task.artifact_total_bytes delete_artifact
    else "The task record and any downloaded staging data will be permanently removed."

pub record DeleteQuestion : Type 0 where
  pub title : String
  pub description : Bool → String
  pub option_label : Option String
  pub disabled : Bool

abbrev pub deletes : Option String → String → Bool
deletes none id = false
deletes (some deleting) id = str_eq deleting id

unfoldable pub delete_question : Option String → DownloadTask → Option DeleteQuestion
delete_question deleting task =
    if is_terminal task.status
    then some (record {
      title = "Delete " & status_value task.status & " task?";
      description = delete_description task;
      option_label =
          if has_completed task.status
          then some "Also delete the published artifact and model files"
          else none;
      disabled = deletes deleting task.id;
    })
    else none

-- The description of the page, and the errors that it shows
abbrev pub limits_text : Option Limits → String
limits_text none = ""
limits_text (some limits) =
    " Up to "
    & show limits.max_concurrent
    & " tasks run at once, with "
    & show limits.max_concurrent_per_source
    & " per source."

unfoldable pub page_description : QueuePage → String
page_description st =
    "Manage downloads, review progress and prioritize your queue." & limits_text st.limits & " "

abbrev pub error_if : String → String → List String
error_if before message = if truthy message then (before & message) ∷ [] else []

unfoldable pub page_errors : QueuePage → List String
page_errors st =
    error_if "" st.info_error
    ++ error_if "Could not refresh downloads: " st.tasks_error
    ++ error_if "Could not reorder downloads: " st.queue_error

unfoldable pub queue_status : (ℕ → String) → QueuePage → String
queue_status count_text st =
    if st.loading then "Updating downloads…" else count_text st.total & " matching downloads"

-- The columns of the table, and those that a layout keeps
pub data Column : Type 0 where
  queue_column source_column status_column revision_column progress_column updated_column
        actions_column :
      Column

abbrev pub columns : List Column
columns =
    queue_column ∷ source_column ∷ status_column ∷ revision_column ∷ progress_column
    ∷ updated_column ∷ actions_column ∷ []

abbrev pub is_kept : Layout → Column → Bool
is_kept wide column = true
is_kept layout source_column = true
is_kept layout actions_column = true
is_kept medium status_column = true
is_kept medium progress_column = true
is_kept layout column = false

-- What a cell shows of its task; the cell of the source shows what the other columns would.
pub data Piece : Type 0 where
  queue_piece source_piece status_piece revision_piece progress_piece updated_piece actions_piece :
      Piece

abbrev pub is_wide : Layout → Bool
is_wide wide = true
is_wide _ = false

abbrev pub is_compact : Layout → Bool
is_compact compact = true
is_compact _ = false

unfoldable pub source_cell : Layout → TaskStatus → List Piece
source_cell layout status =
    source_piece
    ∷ ((if is_wide layout then [] else revision_piece ∷ updated_piece ∷ [])
        ++ (if is_compact layout then status_piece ∷ progress_piece ∷ [] else [])
        ++ (if not (is_wide layout) && is_sortable status then queue_piece ∷ [] else []))

abbrev pub cell : Layout → TaskStatus → Column → List Piece
cell layout status queue_column = if is_sortable status then queue_piece ∷ [] else []
cell layout status source_column = source_cell layout status
cell layout status status_column = status_piece ∷ []
cell layout status revision_column = revision_piece ∷ []
cell layout status progress_column = progress_piece ∷ []
cell layout status updated_column = updated_piece ∷ []
cell layout status actions_column = if is_terminal status then actions_piece ∷ [] else []

abbrev pub cells : Layout → TaskStatus → List Column → List Piece
cells layout status [] = []
cells layout status (column ∷ more) = cell layout status column ++ cells layout status more

unfoldable pub row_cells : Layout → TaskStatus → List Piece
row_cells layout status = cells layout status (keep (is_kept layout) columns)
