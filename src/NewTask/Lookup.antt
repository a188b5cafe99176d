-- ===== src/NewTask/Lookup.antt =====
-- `lookup`: a request that its timer or its owner may stop, from its start to its end.
pub mod Ends
pub mod Stops
use modelshelf.Common.{
  ℕ, ◌/◌, ◌==◌, String, List, [], ◌∷◌, Bool, true, false, ◌&&◌, Option, none, some, if◌then◌else◌,
  ◌&◌, show,
}
use modelshelf.Api.{Json, Cause, dom_exception, Thrown, Outcome, returned, thrown, Response, api}

abbrev pub lookup_timeout_ms : ℕ
lookup_timeout_ms = 35000

-- The request waits for its reply or for the reply's body, or it has ended.
pub data Phase : Type 0 where
  fetching : Phase
  reading : Response → Phase
  ended : Outcome Thrown (Option Json) → Phase

-- and whether its timer is pending.
pub record Run : Type 0 where
  pub phase : Phase
  pub timer : Bool

abbrev pub begun : Run
begun = record { phase = fetching; timer = true }

-- The reason of the timer's abort, and that of `controller.abort()`
abbrev pub timed_out : Cause
timed_out =
    dom_exception "TimeoutError"
      ("Provider lookup timed out after " & show (lookup_timeout_ms / 1000) & " seconds.")

abbrev pub stopped_by_owner : Cause
stopped_by_owner = dom_exception "AbortError" "signal is aborted without reason"

-- What can happen, in whatever order.
pub data Event : Type 0 where
  timeout abandoned : Event
  fetched : Outcome Cause Response → Event
  body_read : Outcome Cause Json → Outcome Cause String → Event

-- The reply with what its body ends with.
abbrev pub with_body : Response → Outcome Cause Json → Outcome Cause String → Response
with_body r json text = record r { json = json; text = text }

module _ (parse : String → Option Json) (stringify : Json → String) (path : String) where
  -- The end of the request, after which `finally` clears the timer
  abbrev pub over : Outcome Cause Response → Run
  over outcome = record { phase = ended (api parse stringify "GET" path outcome); timer = false }

  -- An abort throws its reason where the request waits.
  unfoldable pub stop : Cause → Run → Run
  stop reason run = elim run.phase [
    | fetching ↦ over (thrown reason)
    | reading r ↦ over (returned (with_body r (thrown reason) (thrown reason)))
    | ended result ↦ run
  ]

  unfoldable pub reply_arrived : Outcome Cause Response → Run → Run
  reply_arrived (thrown cause) run = over (thrown cause)
  reply_arrived (returned r) run =
      if r.ok && r.status == 204 then over (returned r) else record run { phase = reading r }

  unfoldable pub happened : Event → Run → Run
  unfolding stop reply_arrived
  happened timeout run = if run.timer then stop timed_out run else run
  happened abandoned run = stop stopped_by_owner run
  happened (fetched outcome) run = elim run.phase [
    | fetching ↦ reply_arrived outcome run
    | reading r ↦ run
    | ended result ↦ run
  ]
  happened (body_read json text) run = elim run.phase [
    | fetching ↦ run
    | reading r ↦ over (returned (with_body r json text))
    | ended result ↦ run
  ]

  unfoldable pub run_of : List Event → Run → Run
  unfolding happened
  run_of [] run = run
  run_of (e ∷ es) run = run_of es (happened e run)
