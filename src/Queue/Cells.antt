-- ===== src/Queue/Cells.antt =====
-- The cells of a row of the list of downloads.
pub mod Agreement
use modelshelf.Common.{
  ℕ, ◌+◌, suc, ltb, leb, min, String, List, Bool, true, false, ◌&&◌, ◌||◌, not, Option, none, some,
  get_or, is_some, if◌then◌else◌, truthy, truthy?, str_eq, show, ◌&◌,
}
use modelshelf.Task.{
  TaskStatus, scheduled, queued, downloading, verifying, paused, completed, failed, cancelled,
  DownloadTask,
}
use modelshelf.Format.Bytes.{format_rate}
use modelshelf.Format.Duration.{format_duration}
use modelshelf.Progress.{
  TaskStepKey, processing, TaskStepProgress, current_task_step, local_processing_elapsed,
}
use modelshelf.Fields.Texts.{status_text}
use modelshelf.TaskDetail.Facts.{is_processing, bar_label}
use modelshelf.Queue.Page.{DropTarget}
use modelshelf.Queue.Order.{is_sortable}

-- `label` of the badge
abbrev pub badge_at : (String → String) → TaskStatus → Bool → Option String
badge_at to_upper_case downloading true = some (status_text to_upper_case "local_processing")
badge_at to_upper_case _ _ = none

unfoldable pub badge_label : (String → String) → DownloadTask → Option String
unfolding current_task_step
badge_label to_upper_case task =
    badge_at to_upper_case task.status (is_processing (current_task_step task))

-- `LiveMetrics` below the badge
pub data Live : Type 0 where
  no_metrics : Live
  one_text : String → Live
  rate_and_eta : String → String → Live

abbrev pub downloading_metrics : Bool → DownloadTask → Live
downloading_metrics true task = one_text (local_processing_elapsed task)
downloading_metrics false task =
    rate_and_eta (format_rate task.instantaneous_bytes_per_second)
      ("ETA " & format_duration task.eta_seconds)

abbrev pub waits_for_capacity : Option String → Bool
waits_for_capacity none = false
waits_for_capacity (some detail) = str_eq detail "Waiting for verification capacity"

abbrev pub verifying_metrics : DownloadTask → Live
verifying_metrics task =
    if not (is_some task.verification_total_bytes) || waits_for_capacity task.verification_detail
    then one_text (get_or task.verification_detail "Verification in progress")
    else rate_and_eta ("Verify " & format_rate task.verification_instantaneous_bytes_per_second)
        ("ETA " & format_duration task.verification_eta_seconds)

abbrev pub start_text : (String → String) → Option String → Live
start_text to_locale_string none = no_metrics
start_text to_locale_string (some start) =
    if truthy start then one_text ("Starts " & to_locale_string start) else no_metrics

abbrev pub live_at : (String → String) → TaskStatus → DownloadTask → Live
live_at to_locale_string scheduled task = start_text to_locale_string task.scheduled_at
live_at to_locale_string downloading task =
    downloading_metrics (is_processing (current_task_step task)) task
live_at to_locale_string verifying task = verifying_metrics task
live_at to_locale_string _ task = no_metrics

-- `renderStatus`
unfoldable pub live_metrics : (String → String) → DownloadTask → Live
live_metrics to_locale_string task = live_at to_locale_string task.status task

-- `data-drop`
abbrev pub side : Bool → String
side after = if after then "after" else "before"

unfoldable pub drop_mark : Option DropTarget → String → Option String
drop_mark none id = none
drop_mark (some target) id = if str_eq target.id id then some (side target.after) else none

abbrev pub priority : Option ℕ → ℕ
priority none = 0
priority (some position) = suc position

-- `renderQueue`: the name of the handle, where there is one, and the priority that is shown
unfoldable pub queue_cell : DownloadTask → Option (String × String)
queue_cell task =
    let number = show (priority task.queue_position) in
    if is_sortable task.status
    then some ("Move " & task.source_id & ", priority " & number, "#" & number)
    else none

-- `TaskRevision`: the revision, and the artifact that it links to
unfoldable pub shown_revision : DownloadTask → String
shown_revision task = get_or task.resolved_revision task.requested_revision

abbrev pub artifact_link : (String → String) → Option String → Option String
artifact_link encode none = none
artifact_link encode (some id) = if truthy id then some ("/artifacts/" & encode id) else none

abbrev pub link_at : (String → String) → TaskStatus → Option String → Option String
link_at encode completed id = artifact_link encode id
link_at encode _ id = none

unfoldable pub revision_link : (String → String) → DownloadTask → Option String
revision_link encode task = link_at encode task.status task.artifact_id

-- `TaskProgress`: the label of the bar, or the text in its place
unfoldable pub progress_label : TaskStepProgress → String
unfolding bar_label
progress_label activity = if activity.show_bar then bar_label activity else activity.label

-- The texts between the buttons for the pages, and the one for the next page
unfoldable pub range_text : ℕ → ℕ → ℕ → String
range_text offset shown total =
    show (offset + 1) & "–" & show (min (offset + shown) total) & " of " & show total

unfoldable pub shows_pages : ℕ → ℕ → Bool
shows_pages page_size total = ltb page_size total

-- `currentLayout` by the two media queries
pub data Layout : Type 0 where
  wide medium compact : Layout

unfoldable pub current_layout : Bool → Bool → Layout
current_layout min_1280 min_768 = if min_1280 then wide else if min_768 then medium else compact
