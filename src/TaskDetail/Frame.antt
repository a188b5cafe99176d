-- ===== src/TaskDetail/Frame.antt =====
-- The frame of the details: which task is shown, and the marks of its steps.
use modelshelf.Common.{
  ℕ, suc, ltb, String, List, [], ◌∷◌, ◌++◌, Bool, true, false, not, Option, none, some, is_some,
  if◌then◌else◌, str_eq, truthy, truthy?, show, ◌&◌,
}
use modelshelf.Task.{TaskStatus, awaiting_confirmation, failed, DownloadTask}
use modelshelf.Progress.{TaskStepState, pending, active, complete, TaskStepView, TaskStepProgress}

-- `TaskPage`: the task of the address, and the last one that was shown, which stays while the dialog
-- closes
pub record TaskDialog : Type 0 where
  pub task_id : Option String
  pub shown_task_id : Option String

unfoldable pub dialog_opened : Option String → TaskDialog
dialog_opened task_id = record { task_id = task_id; shown_task_id = task_id }

-- The address changes, and the effect runs.
unfoldable pub task_id_changed : Option String → TaskDialog → TaskDialog
task_id_changed task_id d = record {
  task_id = task_id;
  shown_task_id = if truthy? task_id then task_id else d.shown_task_id;
}

unfoldable pub is_open : TaskDialog → Bool
is_open d = is_some d.task_id

abbrev pub same_id : Option String → Option String → Bool
same_id none none = true
same_id (some a) (some b) = str_eq a b
same_id _ _ = false

-- Whether the task that is shown is polled
unfoldable pub is_live : TaskDialog → Bool
is_live d = same_id d.task_id d.shown_task_id

-- Where the dialog leads when it is closed, with the text of the address's parameters
unfoldable pub closed_address : String → String
closed_address search = "/tasks" & search

-- The mark of a step: a check, a dot, or its number
pub data Mark : Type 0 where
  check dot : Mark
  number : ℕ → Mark

abbrev pub mark_of : ℕ → TaskStepState → Mark
mark_of index complete = check
mark_of index active = dot
mark_of index state = number (suc index)

abbrev pub is_step : TaskStepState → Bool
is_step pending = false
is_step complete = false
is_step state = true

abbrev pub is_pending : TaskStepState → Bool
is_pending pending = true
is_pending state = false

-- A step with its mark, whether it is the current one, and whether the line before it is filled, if
-- there is one
pub record ShownStep : Type 0 where
  pub label : String
  pub mark : Mark
  pub current : Bool
  pub line : Option Bool

unfoldable pub shown_steps : ℕ → List TaskStepView → List ShownStep
shown_steps index [] = []
shown_steps index (step ∷ steps) =
    record {
      label = step.label;
      mark = mark_of index step.state;
      current = is_step step.state;
      line = if ltb 0 index then some (not (is_pending step.state)) else none;
    }
    ∷ shown_steps (suc index) steps

-- The percentage beside the bar
unfoldable pub percent_text : TaskStepProgress → String
percent_text activity = elim activity.percent [ none ↦ "—" | some percent ↦ show percent & "%" ]

-- What stands below the facts, in order
pub data Note : Type 0 where
  selection_note : List String → Note
  task_error failure_hint action_error published : String → Note
  confirmation : Note

abbrev pub note_if : Option String → (String → Note) → List Note
note_if none note = []
note_if (some text) note = if truthy text then note text ∷ [] else []

abbrev pub files_note : Option (List String) → List Note
files_note none = []
files_note (some paths) = selection_note paths ∷ []

abbrev pub failure_note : TaskStatus → List Note
failure_note failed =
    failure_hint
      "Available downloaded data is retained. Retry continues using the locked revision. Delete task permanently removes the retained data."
    ∷ []
failure_note status = []

abbrev pub confirmation_note : TaskStatus → List Note
confirmation_note awaiting_confirmation = confirmation ∷ []
confirmation_note status = []

unfoldable pub shown_notes : String → DownloadTask → List Note
shown_notes error task =
    files_note task.selected_paths
    ++ note_if task.error task_error
    ++ failure_note task.status
    ++ note_if (some error) action_error
    ++ note_if task.artifact_id published
    ++ confirmation_note task.status
