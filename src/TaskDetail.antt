-- ===== src/TaskDetail.antt =====
-- packages/ui/src/pages/TaskPage.tsx: the details of a task, kept up to date by polling, and the
-- actions on it.
pub mod Actions
pub mod Facts
pub mod Frame
pub mod Confirmation
use modelshelf.Common.{
  String, List, [], ◌∷◌, ◌++◌, Bool, true, false, ◌||◌, ◌&&◌, Option, none, some, is_some, truthy,
  if◌then◌else◌, ◌&◌,
}
use modelshelf.Task.{
  TaskStatus, scheduled, queued, resolving, awaiting_confirmation, downloading, verifying,
  publishing, paused, cancelled, completed, failed, DownloadTask,
}
use modelshelf.Queue.Page.{Reply, ok, failed_with}

abbrev pub can_pause : TaskStatus → Bool
can_pause queued = true
can_pause resolving = true
can_pause downloading = true
can_pause verifying = true
can_pause _ = false

abbrev pub can_cancel : TaskStatus → Bool
can_cancel scheduled = true
can_cancel paused = true
can_cancel awaiting_confirmation = true
can_cancel status = can_pause status

abbrev pub can_delete : TaskStatus → Bool
can_delete completed = true
can_delete failed = true
can_delete cancelled = true
can_delete _ = false

abbrev pub is_scheduled : TaskStatus → Bool
is_scheduled scheduled = true
is_scheduled _ = false

abbrev pub can_resume : TaskStatus → Bool
can_resume paused = true
can_resume failed = true
can_resume _ = false

pub data Button : Type 0 where
  pause_button schedule_control start_button resume_control cancel_button delete_button : Button

abbrev pub shown_if : Bool → Button → List Button
shown_if true b = b ∷ []
shown_if false b = []

abbrev pub truthy_text : Option String → Bool
truthy_text none = false
truthy_text (some t) = truthy t

footer : TaskStatus → Bool → List Button
footer status has_start =
    if can_cancel status || can_delete status
    then shown_if (can_pause status) pause_button
      ++ shown_if (is_scheduled status && has_start) schedule_control
      ++ shown_if (is_scheduled status) start_button
      ++ shown_if (can_resume status) resume_control
      ++ shown_if (can_cancel status) cancel_button
      ++ shown_if (can_delete status) delete_button
    else []

-- The buttons of the footer, in their order; without any there is no footer.
unfoldable pub buttons : DownloadTask → List Button
unfolding footer
buttons task = footer task.status (truthy_text task.scheduled_at)

-- The state variables of `TaskDetail`.
pub record Detail : Type 0 where
  pub task : Option DownloadTask
  pub error : String
  pub action_busy : Bool

abbrev pub detail_opened : Detail
detail_opened = record { task = none; error = ""; action_busy = false }

pub data Action : Type 0 where
  pause cancel start : Action
  resume : Option String → Action
  reschedule : String → Action

pub data Method : Type 0 where
  get post put delete : Method

-- A request; the body of a resume or of a new schedule may have a `scheduledAt`.
pub record Request : Type 0 where
  pub method : Method
  pub path : String
  pub body : Option (Option String)

abbrev pub given : Option String → Option String
given none = none
given (some t) = if truthy t then some t else none

unfoldable pub action_request : String → Action → Request
action_request id pause = record { method = post; path = "/tasks/" & id & "/pause"; body = none }
action_request id cancel = record { method = post; path = "/tasks/" & id & "/cancel"; body = none }
action_request id start = record { method = post; path = "/tasks/" & id & "/start"; body = none }
action_request id (resume at) = record {
  method = post;
  path = "/tasks/" & id & "/resume";
  body = some (given at);
}
action_request id (reschedule at) = record {
  method = put;
  path = "/tasks/" & id & "/schedule";
  body = some (some at);
}

-- `control`, `resume` and `reschedule` up to their request
unfoldable pub action_begins : Detail → Detail
action_begins d = record d { action_busy = true; error = "" }

-- and from the reply on; the second part is the result
unfoldable pub action_replied : Reply DownloadTask → Detail → Detail × Bool
action_replied (ok task) d = (record d { task = some task; action_busy = false }, true)
action_replied (failed_with message) d = (record d { error = message; action_busy = false }, false)

abbrev pub delete_request : String → Bool → Request
delete_request id delete_artifact = record {
  method = delete;
  path = "/tasks/" & id & (if delete_artifact then "?deleteArtifact=true" else "");
  body = none;
}

-- `deleteTask` up to its request; without a task it returns `false` at once
unfoldable pub deletion_begins : String → Bool → Detail → Option Request × Detail
unfolding action_begins
deletion_begins id delete_artifact d =
    if is_some d.task
    then (some (delete_request id delete_artifact), action_begins d)
    else (none, d)

-- `deleteTask` from the reply on: the state, the result, and whether `onDeleted` is called and the
-- dialog is closed
pub record Deleted : Type 0 where
  pub detail : Detail
  pub result : Bool
  pub closes : Bool

unfoldable pub deletion_replied : Reply (Unit {0}) → Detail → Deleted
deletion_replied (ok _) d = record {
  detail = record d { action_busy = false };
  result = true;
  closes = true;
}
deletion_replied (failed_with message) d = record {
  detail = record d { error = message; action_busy = false };
  result = false;
  closes = false;
}

-- The reply to one round of `load`; `active` is the variable of the effect.
unfoldable pub poll_replied : Bool → Reply DownloadTask → Detail → Detail
poll_replied false reply d = d
poll_replied true (ok task) d = record d { task = some task; error = "" }
poll_replied true (failed_with message) d = record d { error = message }

-- The replies to the polls while an action waits for its own.
unfoldable pub polled : List (Reply DownloadTask) → Detail → Detail
unfolding poll_replied
polled [] d = d
polled (r ∷ rs) d = polled rs (poll_replied true r d)

pub data View : Type 0 where
  unavailable loading_task : View
  shown : DownloadTask → View

-- What the dialog shows.
unfoldable pub view_of : Detail → View
view_of d = elim d.task [
  | some task ↦ shown task
  | none ↦ if truthy d.error then unavailable else loading_task
]
