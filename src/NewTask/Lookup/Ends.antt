-- ===== src/NewTask/Lookup/Ends.antt =====
-- Every lookup ends, once, and its timer with it.
use modelshelf.Common.{
  String, List, [], ◌∷◌, Bool, true, false, not, Option, ◌≡◌, refl, arith, ◌∙◌, ap,
}
use modelshelf.Api.{Json}
use modelshelf.NewTask.Lookup.{
  Phase, fetching, reading, ended, Run, begun, Event, timeout, abandoned, fetched, body_read,
  happened, run_of,
}

abbrev pub has_timeout : List Event → Bool
has_timeout [] = false
has_timeout (timeout ∷ es) = true
has_timeout (e ∷ es) = has_timeout es

abbrev pub is_ended : Phase → Bool
is_ended fetching = false
is_ended (reading r) = false
is_ended (ended result) = true

-- The timer is pending exactly until the lookup ends.
abbrev pub Timed : Run → Type 0
Timed run = run.timer ≡ not (is_ended run.phase)

module _ (parse : String → Option Json) (stringify : Json → String) (path : String) where
  abbrev step : Event → Run → Run
  step e run = happened parse stringify path e run

  abbrev pub runs : List Event → Run → Run
  runs es run = run_of parse stringify path es run

  Timed-step : (e : Event) (run : Run) → Timed run → Timed (step e run)
  unfolding happened
  Timed-step timeout run h = ground (arith, h)
  Timed-step abandoned run h = ground (arith, h)
  Timed-step (fetched outcome) run h = ground (arith, h)
  Timed-step (body_read json text) run h = ground (arith, h)

  ended-step : (e : Event) (run : Run) → Timed run → is_ended run.phase ≡ true → step e run ≡ run
  unfolding happened
  ended-step e run h over = ground (arith, h)

  ended-timeout : (run : Run) → Timed run → is_ended (step timeout run).phase ≡ true
  unfolding happened
  ended-timeout run h = ground (arith, h)

  pub stays :
      (es : List Event) (run : Run) → Timed run → is_ended run.phase ≡ true → runs es run ≡ run
  unfolding run_of
  stays [] run h over = refl
  stays (e ∷ es) run h over =
      let same = ended-step e run h over in ap (runs es) same ∙ stays es run h over

  timeout_ends :
      (es : List Event) (run : Run)
      → Timed run
      → has_timeout es ≡ true
      → (is_ended (runs es run).phase ≡ true) × Timed (runs es run)
  unfolding run_of
  timeout_ends [] run h t = ground (arith, t)
  timeout_ends (timeout ∷ es) run h t =
      let over = ended-timeout run h in
      let next = Timed-step timeout run h in
      let same = stays es (step timeout run) next over in rw same (over, next)
  timeout_ends (abandoned ∷ es) run h t =
      timeout_ends es (step abandoned run) (Timed-step abandoned run h) t
  timeout_ends (fetched outcome ∷ es) run h t =
      timeout_ends es (step (fetched outcome) run) (Timed-step (fetched outcome) run h) t
  timeout_ends (body_read json text ∷ es) run h t =
      timeout_ends es (step (body_read json text) run) (Timed-step (body_read json text) run h) t

  -- Whatever else happens to a lookup, once the time of its timer is over it has ended, its timer is
  -- not pending, and nothing that happens afterwards changes its result.
  pub run_of-ended :
      (es : List Event)
      → has_timeout es ≡ true
      → (is_ended (runs es begun).phase ≡ true)
        × ((runs es begun).timer ≡ false)
        × ((later : List Event) → runs later (runs es begun) ≡ runs es begun)
  run_of-ended es t =
      let (over, timed) = timeout_ends es begun refl t in
      (over, ground (arith, over, timed), λ later. stays later (runs es begun) timed over)
