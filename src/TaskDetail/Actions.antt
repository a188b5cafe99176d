-- ===== src/TaskDetail/Actions.antt =====
-- What the actions leave behind, and which are offered.
use modelshelf.Common.{
  String, List, [], ◌∷◌, ◌++◌, Bool, true, false, ◌≡◌, ◌≢◌, ◌↔◌, refl, some, is_some, any, arith,
}
use modelshelf.Task.{publishing, DownloadTask}
use modelshelf.Controls.Confirm.{Dialog, closed, confirm_begins, confirm_ends}
use modelshelf.Queue.Page.{Reply, ok, failed_with}
use modelshelf.TaskDetail.{
  can_delete, Button, pause_button, resume_control, cancel_button, delete_button, buttons, Detail,
  action_begins, action_replied, deletion_begins, deletion_replied, delete_request, poll_replied,
  polled, shown, view_of,
}

polled_busy :
    (rs : List (Reply DownloadTask)) (d : Detail) → (polled rs d).action_busy ≡ d.action_busy
unfolding polled poll_replied
polled_busy [] d = refl
polled_busy (ok t ∷ rs) d = polled_busy rs _
polled_busy (failed_with m ∷ rs) d = polled_busy rs _

-- A task that is shown is not lost by polling.
polled_shown :
    (rs : List (Reply DownloadTask)) (d : Detail)
    → is_some d.task ≡ true
    → is_some (polled rs d).task ≡ true
unfolding polled poll_replied
polled_shown [] d s = s
polled_shown (ok t ∷ rs) d s = polled_shown rs _ refl
polled_shown (failed_with m ∷ rs) d s = polled_shown rs _ s

polled-append :
    (rs qs : List (Reply DownloadTask)) (d : Detail) → polled (rs ++ qs) d ≡ polled qs (polled rs d)
unfolding polled
polled-append [] qs d = refl
polled-append (r ∷ rs) qs d = polled-append rs qs _

-- After a poll that succeeds the dialog shows the polled task and no error, whatever came before it,
-- the message of a failed action included; no poll changes whether an action is under way.
pub polled-last :
    (rs : List (Reply DownloadTask)) (t : DownloadTask) (message : String) (d : Detail)
    → let failed_action = (action_replied (failed_with message) d).0 in
      (polled (rs ++ ok t ∷ []) failed_action
        ≡ record { task = some t; error = ""; action_busy = false })
      × ((polled rs d).action_busy ≡ d.action_busy)
      × (failed_action.error ≡ message)
unfolding polled poll_replied action_replied
polled-last rs t message d = (
  grind (
    arith,
    polled-append rs (ok t ∷ []) (action_replied (failed_with message) d).0,
    polled_busy rs (action_replied (failed_with message) d).0,
  ),
  polled_busy rs d,
  refl,
)

-- While an action waits for its reply, whatever polls come, it is marked as under way; the reply
-- ends this. A success shows the task of the reply; a failure shows its message, keeps the task that
-- is shown, and never leaves the dialog without a task if it had one before.
pub action_replied-view_of :
    (rs : List (Reply DownloadTask)) (reply : Reply DownloadTask) (d : Detail)
    → let waiting = polled rs (action_begins d) in
      let after = action_replied reply waiting in
      (waiting.action_busy ≡ true)
      × (after.0.action_busy ≡ false)
      × ((t : DownloadTask) → reply ≡ ok t → (view_of after.0 ≡ shown t) × (after.1 ≡ true))
      × ((message : String)
          → reply ≡ failed_with message
          → (after.1 ≡ false)
            × (after.0.error ≡ message)
            × (after.0.task ≡ waiting.task)
            × (is_some d.task ≡ true → is_some after.0.task ≡ true))
unfolding action_replied action_begins view_of
action_replied-view_of rs (ok t) d =
    (polled_busy rs _, refl, λ u e. ground arith, λ m e. ground arith)
action_replied-view_of rs (failed_with m) d = (
  polled_busy rs _,
  refl,
  λ u e. ground arith,
  λ n e. (refl, ground arith, refl, λ s. polled_shown rs _ s),
)

abbrev pub is_cancel : Button → Bool
is_cancel cancel_button = true
is_cancel _ = false

abbrev pub is_delete : Button → Bool
is_delete delete_button = true
is_delete _ = false

abbrev pub is_resume : Button → Bool
is_resume resume_control = true
is_resume _ = false

abbrev pub is_pause : Button → Bool
is_pause pause_button = true
is_pause _ = false

-- A task offers to be cancelled exactly until it has ended or is being published, and to be deleted
-- exactly once it has ended, so never both; only a task that is being published offers nothing;
-- whatever can be paused can be cancelled and not resumed.
pub buttons_lem :
    (task : DownloadTask)
    → ((any is_cancel (buttons task) ≡ true)
        ↔ ((can_delete task.status ≡ false) × (task.status ≢ publishing)))
      × ((any is_delete (buttons task) ≡ true) ↔ (can_delete task.status ≡ true))
      × ((buttons task ≡ []) ↔ (task.status ≡ publishing))
      × (any is_pause (buttons task) ≡ true
          → (any is_cancel (buttons task) ≡ true) × (any is_resume (buttons task) ≡ false))
unfolding buttons
buttons_lem task = ground arith

-- A deletion that is confirmed in the dialog is requested exactly if a task is shown, with the
-- artifact exactly if the box is ticked; when the reply comes no action is under way, and the dialog
-- and the details close exactly if the deletion succeeded; a failure shows its message and keeps the
-- task and the tick.
pub deletion_replied-confirm_ends :
    (id : String) (dialog : Dialog) (d : Detail) (reply : Reply (Unit {0}))
    → let (ticked, asking) = confirm_begins dialog in
      let (request, waiting) = deletion_begins id ticked d in
      let after = deletion_replied reply waiting in
      let answered = confirm_ends after.result asking in
      (is_some request ≡ is_some d.task)
      × (is_some d.task ≡ true → request ≡ some (delete_request id dialog.option_checked))
      × (after.detail.task ≡ d.task)
      × ((u : Unit {0}) → reply ≡ ok u → (after.closes ≡ true) × (answered ≡ closed))
      × ((message : String)
          → reply ≡ failed_with message
          → (after.closes ≡ false)
            × (after.detail.error ≡ message)
            × (after.detail.action_busy ≡ false)
            × (answered ≡ record dialog { busy = false }))
unfolding deletion_begins deletion_replied confirm_begins confirm_ends action_begins
deletion_replied-confirm_ends id dialog d (ok u) = ground arith
deletion_replied-confirm_ends id dialog d (failed_with m) = ground arith
