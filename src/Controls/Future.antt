-- ===== src/Controls/Future.antt =====
-- The dialogs ask only for times in the future, and a closed dialog keeps nothing of the last one.
use modelshelf.Common.{
  ℕ, ◌<◌, String, Bool, true, false, Option, none, some, ◌≡◌, arith, truthy, Option-cases, inl, inr,
  leb, Bool-cases,
}
use modelshelf.Controls.Dates.{
  Dates, ScheduleDialog, ResumeDialog, resume_closed, chosen, save, resume, resume_change_open,
  switch_delayed, type_scheduled_at, resume_ends,
}

module _ (dates : Dates) where
  -- The text names the instant, which is after `now`.
  pub Names : ℕ → String → ℕ → Type 0
  Names now text date = (truthy text ≡ true) × (dates.read text ≡ some date) × (now < date)

  chosen-Names :
      (now : ℕ) (text : String) (date : ℕ) → chosen dates now text ≡ some date → Names now text date
  unfolding chosen Names
  chosen-Names now text date e = elim (Option-cases (dates.read text)) [
    | inl invalid ↦ ground (arith, invalid)
    | inr (t, valid) ↦ elim (Bool-cases (leb t now)) [
      | inl early ↦ ground (arith, valid, early)
      | inr late ↦ ground (arith, valid, late)
    ]
  ]

  Names-chosen :
      (now : ℕ) (text : String) (date : ℕ) → Names now text date → chosen dates now text ≡ some date
  unfolding chosen Names
  Names-chosen now text date (t, r, l) = rw t (rw r (ground arith))

  -- A start time is saved exactly if the text names an instant after now, and the request carries
  -- this instant; otherwise the dialog only says so.
  pub save-Names :
      (now : ℕ) (d : ScheduleDialog)
      → ((date : ℕ)
          → Names now d.value date
          → save dates now d
            ≡ (some (dates.to_iso date), record d { busy = true; validation_error = "" }))
        × ((request : String)
            → (save dates now d).0 ≡ some request
            → (date : ℕ) × Names now d.value date × (request ≡ dates.to_iso date))
        × ((save dates now d).0 ≡ none
            → (save dates now d).1
              ≡ record d { validation_error = "Choose a scheduled start time in the future." })
  unfolding save
  save-Names now d = elim (Option-cases (chosen dates now d.value)) [
    | inl nothing ↦ (
      λ date n. ground (arith, Names-chosen now d.value date n, nothing),
      λ request e. ground (arith, nothing),
      λ e. ground (arith, nothing),
    )
    | inr (t, found) ↦ (
      λ date n. ground (arith, Names-chosen now d.value date n),
      λ request e. (t, chosen-Names now d.value t found, ground (arith, found)),
      λ e. ground (arith, found),
    )
  ]

  -- A resume without delay is asked for at once; with a delay it is asked for exactly if the text
  -- names an instant after now, and the request carries this instant; otherwise the dialog only says
  -- so.
  pub resume-Names :
      (now : ℕ) (d : ResumeDialog)
      → (d.delayed ≡ false
          → resume dates now d ≡ (some none, record d { busy = true; validation_error = "" }))
        × ((date : ℕ)
            → d.delayed ≡ true
            → Names now d.scheduled_at date
            → resume dates now d
              ≡ (some (some (dates.to_iso date)), record d { busy = true; validation_error = "" }))
        × ((request : Option String)
            → d.delayed ≡ true
            → (resume dates now d).0 ≡ some request
            → (date : ℕ) × Names now d.scheduled_at date × (request ≡ some (dates.to_iso date)))
        × ((resume dates now d).0 ≡ none
            → (resume dates now d).1
              ≡ record d { validation_error = "Choose a resume time in the future." })
  unfolding resume
  resume-Names now d = elim (Option-cases (chosen dates now d.scheduled_at)) [
    | inl nothing ↦ (
      λ at_once. ground arith,
      λ date later n. ground (arith, Names-chosen now d.scheduled_at date n, nothing),
      λ request later e. ground (arith, nothing),
      λ e. ground (arith, nothing),
    )
    | inr (t, found) ↦ (
      λ at_once. ground arith,
      λ date later n. ground (arith, Names-chosen now d.scheduled_at date n),
      λ request later e. (t, chosen-Names now d.scheduled_at t found, ground (arith, found)),
      λ e. ground (arith, found),
    )
  ]

  -- The fields and buttons stand in the open dialog; a busy dialog waits for its result.
  pub data Reach : ResumeDialog → Type 0 where
    start : Reach resume_closed
    opening : {d : ResumeDialog} → (next : Bool) → Reach d → Reach (resume_change_open dates next d)
    switching :
        {d : ResumeDialog}
        → (now : ℕ) (checked : Bool) → d.is_open ≡ true
        → Reach d
        → Reach (switch_delayed dates now checked d)
    typing :
        {d : ResumeDialog}
        → (value : String) → d.is_open ≡ true
        → Reach d
        → Reach (type_scheduled_at dates value d)
    asking :
        {d : ResumeDialog}
        → (now : ℕ) → d.is_open ≡ true
        → d.busy ≡ false
        → Reach d
        → Reach ((resume dates now d).1)
    result :
        {d : ResumeDialog}
        → (done : Bool) → d.busy ≡ true
        → Reach d
        → Reach (resume_ends dates done d)

  record Sound (d : ResumeDialog) : Type 0 where
    waits_open : d.busy ≡ true → (d.is_open ≡ true) × (d.validation_error ≡ "")
    closed_empty : d.is_open ≡ false → d ≡ resume_closed

  resume-Sound :
      (now : ℕ) (d : ResumeDialog)
      → d.is_open ≡ true
      → d.busy ≡ false
      → Sound d
      → Sound ((resume dates now d).1)
  unfolding resume
  resume-Sound now d o b s = elim (Option-cases (chosen dates now d.scheduled_at)) [
    | inl nothing ↦ record {
      waits_open = ground (arith, nothing);
      closed_empty = ground (arith, nothing);
    }
    | inr (t, found) ↦ record {
      waits_open = ground (arith, found);
      closed_empty = ground (arith, found);
    }
  ]

  Reach-Sound : {d : ResumeDialog} → Reach d → Sound d
  unfolding resume_change_open switch_delayed type_scheduled_at resume_ends
  Reach-Sound start = ground arith
  Reach-Sound (opening next r) = ground (arith, Reach-Sound r)
  Reach-Sound (switching now checked o r) = ground (arith, Reach-Sound r)
  Reach-Sound (typing value o r) = ground (arith, Reach-Sound r)
  Reach-Sound (asking {d} now o b r) = resume-Sound now d o b (Reach-Sound r)
  Reach-Sound (result true b r) = ground (arith, Reach-Sound r)
  Reach-Sound (result false b r) = ground (arith, Reach-Sound r)

  -- A closed resume dialog is as it was at first: no time and no message of an earlier opening
  -- remains; a dialog that waits for its result stays open.
  pub Reach-empty :
      {d : ResumeDialog}
      → Reach d
      → (d.is_open ≡ false → d ≡ resume_closed)
        × (d.busy ≡ true → resume_change_open dates false d ≡ d)
  unfolding resume_change_open
  Reach-empty r = let s = Reach-Sound r in (s.closed_empty, λ b. ground arith)
