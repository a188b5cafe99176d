-- ===== src/NewTask/Submit/Agreement.antt =====
-- What is submitted is what was estimated.
use modelshelf.Common.{
  ℕ, ◌<◌, leb, String, true, false, Option, none, some, if◌then◌else◌, ◌≡◌, refl, sym, subst, arith,
  Bool-cases, Option-cases, inl, inr,
}
use modelshelf.Common.Scan.{trim}
use modelshelf.Controls.Dates.{Dates, future}
use modelshelf.NewTask.Form.{DownloadEstimate, ParsedUrl, Inputs, temporary_mirror}
use modelshelf.NewTask.Estimate.{Preflight, EstimateRequest, request_of}
use modelshelf.NewTask.Current.{Reach, estimate_is_current-Answers}
use modelshelf.NewTask.Review.{Choice, submit_disabled, valid_selection}
use modelshelf.NewTask.Review.Sizes.{submit_disabled_lem}
use modelshelf.NewTask.Submit.{
  Submission, TaskRequest, or_undefined, task_request, start_at, submit,
}

abbrev pub not_empty : Option String → Option String
not_empty none = none
not_empty (some t) = or_undefined t

-- The two requests name the same source with the same settings of the network; an empty address of a
-- mirror counts as none.
pub record Agrees (r : TaskRequest) (q : EstimateRequest) : Type 0 where
  pub provider : r.provider ≡ q.provider
  pub id : r.id ≡ q.id
  pub revision : r.revision ≡ q.revision
  pub disable_mirror : r.disable_mirror ≡ q.disable_mirror
  pub disable_proxy : r.disable_proxy ≡ q.disable_proxy
  pub mirror_url : not_empty r.mirror_url ≡ q.mirror_url

not_empty_mirror :
    (f : Inputs)
    → not_empty (if f.use_temporary_mirror then some (trim f.mirror_url) else none)
      ≡ (request_of f).mirror_url
unfolding request_of temporary_mirror
not_empty_mirror f = elim (Bool-cases f.use_temporary_mirror) [
  | inl used ↦ rw used refl
  | inr unused ↦ rw unused refl
]

task_request-Agrees :
    (f : Inputs) (c : Choice) (s : Submission) (start : Option String)
    → Agrees (task_request f c s start) (request_of f)
unfolding task_request request_of temporary_mirror
task_request-Agrees f c s start = record {
  provider = refl;
  id = refl;
  revision = refl;
  disable_mirror = refl;
  disable_proxy = refl;
  mirror_url = not_empty_mirror f;
}

module _ (dates : Dates) where
  -- What a request says of the start and of the files.
  pub record Says (now : ℕ) (c : Choice) (s : Submission) (r : TaskRequest) : Type 0 where
    pub at_once : s.delay_download ≡ false → r.scheduled_at ≡ none
    pub later :
        s.delay_download ≡ true
        → (date : ℕ) × (dates.read s.scheduled_at ≡ some date)
          × (now < date)
          × (r.scheduled_at ≡ some (dates.to_iso date))
    pub files : r.selected_paths ≡ (if c.select_files then some c.selected_paths else none)

  future-some :
      (now date : ℕ) (o : Option ℕ)
      → future dates now o ≡ some date
      → (o ≡ some date) × (now < date)
  future-some now date none e = ground arith
  future-some now date (some t) e = elim (Bool-cases (leb t now)) [
    | inl early ↦ ground (arith, early)
    | inr late ↦ ground (arith, late)
  ]

  submit-request :
      (now : ℕ) (f : Inputs) (c : Choice) (s : Submission) (r : TaskRequest)
      → (submit dates now f c s).0 ≡ some r
      → (start : Option String) × (r ≡ task_request f c s start)
        × Says now c s (task_request f c s start)
  unfolding submit task_request
  submit-request now f c s r e = elim (Bool-cases s.delay_download) [
    | inl delayed ↦ elim (Option-cases (start_at dates now s)) [
      | inl refused ↦ ground (arith, delayed, refused)
      | inr (date, start) ↦
          let (named, later) = future-some now date (dates.read s.scheduled_at) start in
          (
            some (dates.to_iso date),
            ground (arith, delayed, start),
            record {
              at_once = λ h. ground arith;
              later = λ h. (date, named, later, refl);
              files = refl;
            },
          )
    ]
    | inr prompt ↦ (
      none,
      ground (arith, prompt),
      record { at_once = λ h. refl; later = λ h. ground arith; files = refl },
    )
  ]

  -- When the button that starts the download is enabled and the form is sent, the request for the
  -- new task names the source, the revision and the settings of the network for which the estimate
  -- that is shown was the server's answer, and that estimate is downloadable; the task starts at once
  -- or, if it is delayed, at the instant of the form, which is in the future; and the request names
  -- the chosen files exactly if files are chosen, and then the choice is valid. If no text of the
  -- form holds a NUL.
  pub submit-Answers :
      (parse_url : String → Option ParsedUrl)
      (Answers : EstimateRequest → DownloadEstimate → Type 0) (st : Preflight) (now : ℕ)
      (c : Choice) (s : Submission) (r : TaskRequest)
      → Reach parse_url Answers st
      → submit_disabled st c ≡ false
      → (submit dates now st.inputs c s).0 ≡ some r
      → ((q : EstimateRequest) × (e : DownloadEstimate) × (st.estimate ≡ some e)
          × Answers q e
          × (e.downloadable ≡ true)
          × Agrees r q)
        × Says now c s r
        × (c.select_files ≡ true → valid_selection st.estimate c.selected_paths ≡ true)
  submit-Answers parse_url Answers st now c s r reach enabled sends =
      let (current, fits, unreported, valid) = submit_disabled_lem st c enabled in
      let (e, shown, answered, downloadable) =
        estimate_is_current-Answers parse_url Answers st reach current in
      let (start, same, says) = submit-request now st.inputs c s r sends in
      (
        (
          request_of st.inputs,
          e,
          shown,
          answered,
          downloadable,
          subst (λ x. Agrees x (request_of st.inputs)) (sym same)
              (task_request-Agrees st.inputs c s start),
        ),
        subst (λ x. Says now c s x) (sym same) says,
        valid,
      )
