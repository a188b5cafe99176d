-- ===== src/NewTask/Panel/Buttons.antt =====
-- The button at the end of the form, and the switch for a delayed start.
use modelshelf.Common.{
  String, Bool, true, false, ◌&&◌, ◌||◌, not, none, some, get_or, if◌then◌else◌, truthy, ◌&◌,
}
use modelshelf.NewTask.Form.{LookupState, loading, Duplicate}
use modelshelf.NewTask.Estimate.{Preflight}
use modelshelf.NewTask.Review.{Choice, submit_disabled}
use modelshelf.NewTask.Submit.{Submission}
use modelshelf.NewTask.Panel.{duplicate, is_artifact}

-- The button at the end of the form: another page, or the button that starts the download
pub record StartButton : Type 0 where
  pub loading : Bool
  pub loading_text : String
  pub disabled : Bool
  pub label : String

pub data Action : Type 0 where
  open_page : String → String → Action
  start_download : StartButton → Action

abbrev pub is_loading : LookupState → Bool
is_loading loading = true
is_loading _ = false

unfoldable pub start_button : Preflight → Choice → Submission → StartButton
start_button st c s = record {
  loading = s.busy || is_loading st.estimate_lookup;
  loading_text = if s.busy then "Submitting…" else "Validating…";
  disabled = submit_disabled st c;
  label = if s.delay_download then "Schedule download" else "Start download";
}

abbrev pub for_duplicate : Duplicate → Action → Action
for_duplicate d otherwise =
    let id = get_or d.task_id "" in
    if truthy id
    then open_page "Open existing task" ("/tasks/" & id)
    else if is_artifact d.kind
    then open_page "View artifact" "/artifacts"
    else otherwise

unfoldable pub primary_action : Preflight → Choice → Submission → Action
unfolding start_button
primary_action st c s = elim (duplicate st c) [
  | none ↦ start_download (start_button st c s)
  | some d ↦ for_duplicate d (start_download (start_button st c s))
]

-- The switch "Start this download later": without a start, an hour from now is proposed.
unfoldable pub delay_switched : String → Bool → Submission → Submission
delay_switched in_an_hour checked s = record s {
  delay_download = checked;
  scheduled_at = if checked && not (truthy s.scheduled_at) then in_an_hour else s.scheduled_at;
}
