-- ===== src/Tests/Dialogs.antt =====
-- The dialogs and the details of a task on concrete inputs.
use modelshelf.Common.{true, false, none, some, refl, str_eq, if◌then◌else◌}
use modelshelf.Task.{DownloadTask}
use modelshelf.Queue.Page.{Reply, failed_with}
use modelshelf.Controls.Confirm.{
  Dialog, closed, change_open, check_option, confirm_begins, Reach, start, opening, checking,
  confirming,
}
use modelshelf.Controls.Dates.{
  Dates, ScheduleDialog, ResumeDialog, resume_closed, resume_change_open, switch_delayed,
}
use modelshelf.TaskDetail.{Detail}
use modelshelf.Tests.Samples.{task}

abbrev ticked : Dialog
ticked = (confirm_begins (check_option true (change_open true closed))).1

ticked-Reach : Reach ticked
unfolding change_open check_option
ticked-Reach = confirming refl refl (checking true refl (opening true start))

-- A browser whose only date is "noon", the instant 10.
abbrev pub dates : Dates
dates = record {
  read = λ t. if str_eq t "noon" then some 10 else none;
  to_iso = λ date. "12:00Z";
  east = λ date. 0;
  west = λ date. 0;
}

abbrev schedule_open : ScheduleDialog
schedule_open = record { is_open = true; busy = false; value = "noon"; validation_error = "" }

abbrev resume_later : ResumeDialog
resume_later = record {
  is_open = true;
  busy = false;
  delayed = true;
  scheduled_at = "noon";
  validation_error = "";
}

abbrev switched : ResumeDialog
switched =
    resume_change_open dates false
      (switch_delayed dates 9 true (resume_change_open dates true resume_closed))

abbrev detail : Detail
detail = record { task = some task; error = ""; action_busy = false }

abbrev refused : Reply DownloadTask
refused = failed_with "no"

abbrev undeleted : Reply (Unit {0})
undeleted = failed_with "no"
