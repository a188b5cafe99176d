-- ===== src/Tests/Lookups.antt =====
-- Lookups that are stopped, on concrete inputs.
use modelshelf.Common.{String, List, [], ◌∷◌, true, false, Option, none, ◌≡◌, refl}
use modelshelf.Common.{◌&◌}
use modelshelf.Api.{null_value, returned, Response}
use modelshelf.NewTask.Estimate.{Preflight}
use modelshelf.Api.{Json, dom_exception, thrown}
use modelshelf.NewTask.Form.{DownloadEstimate, initial}
use modelshelf.NewTask.Estimate.{Preflight, estimate_refused, request_of}
use modelshelf.NewTask.Lookup.{Event, timeout, abandoned, fetched, begun}
use modelshelf.NewTask.Lookup.Ends.{runs, is_ended, run_of-ended}
use modelshelf.NewTask.Lookup.Stops.{estimate_after, estimate_after-stop}
use modelshelf.Tests.Forms.{answer_to, answered}

abbrev nothing_parsed : String → Option Json
nothing_parsed text = none

abbrev no_text : Json → String
no_text json = ""

abbrev same_estimate : Option Json → DownloadEstimate
same_estimate body = answer_to (request_of initial)

-- The time is over, and then the connection fails.
abbrev events : List Event
events = timeout ∷ fetched (thrown (dom_exception "TypeError" "Failed to fetch")) ∷ []

run_of-ended_example :
    (is_ended (runs nothing_parsed no_text "/estimate" events begun).phase ≡ true)
    × ((runs nothing_parsed no_text "/estimate" events begun).timer ≡ false)
    × ((later : List Event)
        → runs nothing_parsed no_text "/estimate" later
            (runs nothing_parsed no_text "/estimate" events begun)
          ≡ runs nothing_parsed no_text "/estimate" events begun)
run_of-ended_example = run_of-ended nothing_parsed no_text "/estimate" events refl

abbrev good : Response
good = record {
  ok = true;
  status = 200;
  status_text = "OK";
  text = returned "";
  json = returned null_value;
}

abbrev bad : Response
bad = record good { ok = false; status = 500 }

abbrev after : List Event → Preflight
after events =
    estimate_after nothing_parsed no_text same_estimate initial
      (runs nothing_parsed no_text "/estimate" events begun) answered

abbrev out_of_time : Preflight
out_of_time = estimate_refused "Provider lookup timed out after 35 seconds." answered

abbrev no_json : String → Preflight
no_json message =
    estimate_refused (("GET" & " " & "/estimate") & " returned invalid JSON: " & message) answered

estimate_after-stop_example :
    (after (timeout ∷ []) ≡ out_of_time)
    × (after (abandoned ∷ []) ≡ answered)
    × (after (fetched (returned bad) ∷ timeout ∷ []) ≡ out_of_time)
    × (after (fetched (returned bad) ∷ abandoned ∷ []) ≡ answered)
    × (after (fetched (returned good) ∷ timeout ∷ [])
        ≡ no_json "Provider lookup timed out after 35 seconds.")
    × (after (fetched (returned good) ∷ abandoned ∷ [])
        ≡ no_json "signal is aborted without reason")
estimate_after-stop_example =
    estimate_after-stop nothing_parsed no_text same_estimate "/estimate" [] initial answered good
      bad refl refl refl
