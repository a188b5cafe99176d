-- ===== src/NewTask/Submit.antt =====
-- `submit`: the request for a new task.
pub mod Agreement
use modelshelf.Common.{
  ℕ, leb, String, List, Bool, true, false, Option, none, some, if◌then◌else◌, truthy, ◌&◌,
}
use modelshelf.Common.Scan.{trim}
use modelshelf.Task.{Provider}
use modelshelf.Queue.Page.{Reply, ok, failed_with}
use modelshelf.Controls.Dates.{Dates, future}
use modelshelf.NewTask.Form.{Inputs}
use modelshelf.NewTask.Review.{Choice}

-- The rest of the form's state.
pub record Submission : Type 0 where
  pub delay_download : Bool
  pub scheduled_at : String
  pub artifact_alias : String
  pub busy : Bool
  pub error : String

-- The body of the request; a field that is `undefined` is left out.
pub record TaskRequest : Type 0 where
  pub provider : Provider
  pub id : String
  pub revision : String
  pub disable_mirror : Bool
  pub mirror_url : Option String
  pub disable_proxy : Bool
  pub scheduled_at : Option String
  pub selected_paths : Option (List String)
  pub alias : Option String

abbrev pub or_undefined : String → Option String
or_undefined t = if truthy t then some t else none

unfoldable pub task_request : Inputs → Choice → Submission → Option String → TaskRequest
task_request f c s start = record {
  provider = f.provider;
  id = trim f.id;
  revision = trim f.revision;
  disable_mirror = f.disable_mirror;
  mirror_url = if f.use_temporary_mirror then some (trim f.mirror_url) else none;
  disable_proxy = f.disable_proxy;
  scheduled_at = start;
  selected_paths = if c.select_files then some c.selected_paths else none;
  alias = or_undefined (trim s.artifact_alias);
}

module _ (dates : Dates) where
  -- The start of a delayed download: `new Date(scheduledAt)` has to be after `now`.
  abbrev pub start_at : ℕ → Submission → Option ℕ
  start_at now s = future dates now (dates.read s.scheduled_at)

  sent : TaskRequest → Submission → Option TaskRequest × Submission
  sent r s = (some r, record s { busy = true; error = "" })

  -- `submit` up to its request
  unfoldable pub submit : ℕ → Inputs → Choice → Submission → Option TaskRequest × Submission
  unfolding sent
  submit now f c s =
      if s.delay_download
      then elim (start_at now s) [
        | none ↦ (
          none,
          record s { busy = false; error = "Choose a scheduled start time in the future." },
        )
        | some date ↦ sent (task_request f c s (some (dates.to_iso date))) s
      ]
      else sent (task_request f c s none) s

-- and from the reply on; the second part is the page that is opened.
unfoldable pub submit_replied : Reply String → Submission → Submission × Option String
submit_replied (ok task_id) s = (record s { busy = false }, some ("/tasks/" & task_id))
submit_replied (failed_with message) s = (record s { busy = false; error = message }, none)
