-- ===== src/Tests/Submissions.antt =====
-- A submission and a search on concrete inputs.
use modelshelf.Common.{String, List, [], ◌∷◌, true, false, some, ◌≡◌, refl}
use modelshelf.NewTask.Form.{DownloadEstimate}
use modelshelf.NewTask.Estimate.{EstimateRequest, estimate_replied, settled}
use modelshelf.NewTask.Review.{
  nothing_chosen, submit_disabled, valid_selection, storage_sufficient, display_transfer_size,
  display_size, display_reused_size,
}
use modelshelf.NewTask.Submit.{Submission, TaskRequest, task_request, submit}
use modelshelf.NewTask.Submit.Agreement.{Agrees, Says, submit-Answers}
use modelshelf.NewTask.Search.{
  Search, unsearched, search_effect, search_timer, search_replied, found, failed,
}
use mathlib.Core.List.{Memᴰ}
use modelshelf.NewTask.Search.Options as Options
use modelshelf.NewTask.Search.Options.{Sound, Reach-Sound}
use modelshelf.Tests.Dialogs.{dates}
use modelshelf.Tests.Forms.{no_url, Answers, answered, answered-Reach, answered_current}

abbrev submission : Submission
submission = record {
  delay_download = true;
  scheduled_at = "noon";
  artifact_alias = " x ";
  busy = false;
  error = "";
}

abbrev sent : TaskRequest
sent = task_request answered.inputs nothing_chosen submission (some "12:00Z")

enabled : submit_disabled answered nothing_chosen ≡ false
unfolding submit_disabled storage_sufficient display_transfer_size display_size display_reused_size
    estimate_replied settled
enabled = rw answered_current refl

is_sent : (submit dates 9 answered.inputs nothing_chosen submission).0 ≡ some sent
unfolding submit
is_sent = refl

submit-Answers_example :
    ((q : EstimateRequest) × (e : DownloadEstimate) × (answered.estimate ≡ some e)
      × Answers q e
      × (e.downloadable ≡ true)
      × Agrees sent q)
    × Says dates 9 nothing_chosen submission sent
    × (false ≡ true → valid_selection answered.estimate [] ≡ true)
submit-Answers_example =
    submit-Answers dates no_url Answers answered 9 nothing_chosen submission sent answered-Reach
      enabled is_sent

-- The server knows one model.
abbrev Found : String → List String → Type 0
Found text options = options ≡ (text ∷ [])

-- The search for `ab` is dropped for one for `abc`, whose timer runs when the first one fails.
abbrev abandoned : Search String
abandoned = search_effect true "abc" (search_timer (search_effect true "ab" unsearched))

abbrev searched : Search String
searched =
    search_replied (found ("abc" ∷ [])) (search_timer (search_replied (failed "late") abandoned))

abbrev searched-Reach : Options.Reach Found ("abc" ∷ "ab" ∷ []) searched
unfolding search_timer search_effect search_replied
searched-Reach = Options.Reach.answer "abc" ("abc" ∷ []) (Memᴰ.head refl) refl (
    Options.Reach.timer (
      Options.Reach.failure "ab" "late" (Memᴰ.head refl) (
        Options.Reach.change true "abc"
          (Options.Reach.timer (Options.Reach.change true "ab" Options.Reach.start)))))

Reach-Sound_example : Sound Found ("abc" ∷ "ab" ∷ []) searched
Reach-Sound_example = Reach-Sound Found searched-Reach
