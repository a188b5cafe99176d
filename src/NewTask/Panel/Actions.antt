-- ===== src/NewTask/Panel/Actions.antt =====
-- The button at the end of the form starts only what the panel shows.
use modelshelf.Common.{String, true, false, Option, none, some, get_or, ◌≡◌, arith, truthy}
use modelshelf.NewTask.Form.{DownloadEstimate, ParsedUrl, Duplicate}
use modelshelf.NewTask.Estimate.{Preflight, EstimateRequest, request_of, estimate_is_current}
use modelshelf.NewTask.Current.{Reach, estimate_is_current-Answers}
use modelshelf.NewTask.Review.{
  Choice, storage_sufficient, display_transfer_size, submit_disabled, valid_selection,
}
use modelshelf.NewTask.Submit.{Submission}
use modelshelf.NewTask.Panel.{panel, reviewed, duplicate, is_artifact, storage_warning}
use modelshelf.NewTask.Panel.Buttons.{StartButton, start_download, start_button, primary_action}

panel-reviewed :
    (st : Preflight) (e : DownloadEstimate)
    → estimate_is_current st ≡ true
    → st.estimate ≡ some e
    → panel st ≡ reviewed e
unfolding panel estimate_is_current
panel-reviewed st e current shown = ground (arith, current, shown)

primary_action-button :
    (st : Preflight) (c : Choice) (s : Submission) (b : StartButton)
    → primary_action st c s ≡ start_download b
    → b ≡ start_button st c s
unfolding primary_action
primary_action-button st c s b e = ground (arith, e)

-- The page is left for a duplicate of the whole repository that is on the shelf, or that has a task.
primary_action-duplicate :
    (st : Preflight) (c : Choice) (s : Submission) (b : StartButton) (d : Duplicate)
    → primary_action st c s ≡ start_download b
    → duplicate st c ≡ some d
    → (truthy (get_or d.task_id "") ≡ false) × (is_artifact d.kind ≡ false)
unfolding primary_action
primary_action-duplicate st c s b d e h = ground (arith, e, h)

module _ (parse_url : String → Option ParsedUrl)
    (Answers : EstimateRequest → DownloadEstimate → Type 0) where
  -- Where the form's button starts a download and is enabled, the panel shows the review of an
  -- estimate that is the server's answer for the inputs as they are, without a warning of too little
  -- storage; files are validly chosen, or else the whole repository is meant and the estimate knows
  -- neither an artifact nor a task for it, by its id, already.
  pub primary_action-Answers :
      (st : Preflight) (c : Choice) (s : Submission) (b : StartButton)
      → Reach parse_url Answers st
      → primary_action st c s ≡ start_download b
      → b.disabled ≡ false
      → (e : DownloadEstimate) × (panel st ≡ reviewed e)
        × Answers (request_of st.inputs) e
        × (storage_warning (storage_sufficient st.estimate c) (display_transfer_size st.estimate c)
            ≡ none)
        × (c.select_files ≡ true → valid_selection st.estimate c.selected_paths ≡ true)
        × ((d : Duplicate)
            → c.select_files ≡ false
            → e.duplicate ≡ some d
            → (truthy (get_or d.task_id "") ≡ false) × (is_artifact d.kind ≡ false))
  unfolding submit_disabled start_button duplicate
  primary_action-Answers st c s b r starts enabled =
      let same = primary_action-button st c s b starts in
      let off : submit_disabled st c ≡ false = ground (arith, same, enabled) in
      let current : estimate_is_current st ≡ true = ground (arith, off) in
      let (e, shown, answered, _) = estimate_is_current-Answers parse_url Answers st r current in
      (
        e,
        panel-reviewed st e current shown,
        answered,
        ground (arith, off),
        λ on. ground (arith, off, on),
        λ d whole known.
            primary_action-duplicate st c s b d starts
              (ground (arith, current, whole, shown, known)),
      )
