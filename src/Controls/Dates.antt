-- ===== src/Controls/Dates.antt =====
-- ScheduleControl and ResumeControl: dialogs that ask for a time in the future. An instant is a
-- number of milliseconds from the earliest one that a `Date` holds.
use modelshelf.Common.{
  ℕ, ◌+◌, ◌-◌, ◌*◌, String, Bool, true, false, not, ◌&&◌, Option, none, some, if◌then◌else◌, leb,
  truthy,
}
use modelshelf.Common.Scan.{first}

-- What the browser makes of dates: `new Date(text)`, where it is valid; `toISOString`; and the
-- offset of the local time in minutes, to the east and to the west.
pub record Dates : Type 0 where
  pub read : String → Option ℕ
  pub to_iso : ℕ → String
  pub east : ℕ → ℕ
  pub west : ℕ → ℕ

pub record ScheduleDialog : Type 0 where
  pub is_open : Bool
  pub busy : Bool
  pub value : String
  pub validation_error : String

pub record ResumeDialog : Type 0 where
  pub is_open : Bool
  pub busy : Bool
  pub delayed : Bool
  pub scheduled_at : String
  pub validation_error : String

abbrev pub resume_closed : ResumeDialog
resume_closed = record {
  is_open = false;
  busy = false;
  delayed = false;
  scheduled_at = "";
  validation_error = "";
}

module _ (dates : Dates) where
  unfoldable pub local_date_time_value : ℕ → String
  local_date_time_value date =
      first 16 (dates.to_iso (date + dates.east date * 60000 - dates.west date * 60000))

  -- The instant that a text names, if it is after `now`.
  abbrev pub future : ℕ → Option ℕ → Option ℕ
  future now none = none
  future now (some date) = if leb date now then none else some date

  unfoldable pub chosen : ℕ → String → Option ℕ
  chosen now text = if truthy text then future now (dates.read text) else none

  -- `value` shows `new Date(scheduledAt)`; an invalid one throws.
  unfoldable pub schedule_change_open : ℕ → Bool → ScheduleDialog → ScheduleDialog
  unfolding local_date_time_value
  schedule_change_open scheduled_at next d = if d.busy then d else record d {
    value = if next then local_date_time_value scheduled_at else d.value;
    validation_error = "";
    is_open = next;
  }

  unfoldable pub type_value : String → ScheduleDialog → ScheduleDialog
  type_value next d = if d.busy then d else record d { value = next; validation_error = "" }

  -- `save` up to the call of `onSave`, with its argument
  unfoldable pub save : ℕ → ScheduleDialog → Option String × ScheduleDialog
  unfolding chosen
  save now d = elim (chosen now d.value) [
    | none ↦ (none, record d { validation_error = "Choose a scheduled start time in the future." })
    | some date ↦ (some (dates.to_iso date), record d { busy = true; validation_error = "" })
  ]

  unfoldable pub save_ends : Bool → ScheduleDialog → ScheduleDialog
  save_ends true d = record d { is_open = false; busy = false }
  save_ends false d = record d { busy = false }

  unfoldable pub resume_change_open : Bool → ResumeDialog → ResumeDialog
  resume_change_open next d =
      if d.busy
      then d
      else if next
      then record d { is_open = true }
      else record d { is_open = false; delayed = false; scheduled_at = ""; validation_error = "" }

  unfoldable pub switch_delayed : ℕ → Bool → ResumeDialog → ResumeDialog
  unfolding local_date_time_value
  switch_delayed now checked d = if d.busy then d else record d {
    delayed = checked;
    validation_error = "";
    scheduled_at =
        if checked && not (truthy d.scheduled_at)
        then local_date_time_value (now + 3600000)
        else d.scheduled_at;
  }

  unfoldable pub type_scheduled_at : String → ResumeDialog → ResumeDialog
  type_scheduled_at value d =
      if d.busy then d else record d { scheduled_at = value; validation_error = "" }

  resume_on : Option String → ResumeDialog → Option (Option String) × ResumeDialog
  resume_on schedule d = (some schedule, record d { busy = true; validation_error = "" })

  -- `resume` up to the call of `onResume`, with its argument
  unfoldable pub resume : ℕ → ResumeDialog → Option (Option String) × ResumeDialog
  unfolding chosen resume_on
  resume now d =
      if d.delayed
      then elim (chosen now d.scheduled_at) [
        | none ↦ (none, record d { validation_error = "Choose a resume time in the future." })
        | some date ↦ resume_on (some (dates.to_iso date)) d
      ]
      else resume_on none d

  unfoldable pub resume_ends : Bool → ResumeDialog → ResumeDialog
  resume_ends true d = record d {
    is_open = false;
    delayed = false;
    scheduled_at = "";
    busy = false;
  }
  resume_ends false d = record d { busy = false }
