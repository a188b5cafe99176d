-- ===== src/NewTask/Lookup/Stops.antt =====
-- What a lookup that is stopped does to the estimate.
use modelshelf.Common.{
  String, List, ◌∷◌, true, false, ◌&&◌, ◌==◌, Option, if◌then◌else◌, str_eq, ◌&◌, ◌≡◌, refl, ap,
  ◌∙◌, show, Bool-cases, inl, inr,
}
use modelshelf.Api.{
  Json, Cause, dom_exception, rethrown, returned, thrown, Response, api, answer_of, value_of,
  refusal, is_abort_error,
}
use modelshelf.NewTask.Form.{DownloadEstimate, Inputs}
use modelshelf.NewTask.Estimate.{Preflight, estimate_replied, estimate_refused}
use modelshelf.NewTask.Aborts.{lookup_reply}
use modelshelf.NewTask.Lookup.{
  fetching, reading, ended, Run, begun, timed_out, stopped_by_owner, Event, timeout, abandoned,
  fetched, with_body, over, stop, reply_arrived, happened, run_of,
}
use modelshelf.NewTask.Lookup.Ends.{runs, stays}

module _ (parse : String → Option Json) (stringify : Json → String)
    (estimate_in : Option Json → DownloadEstimate) where
  -- The estimate after a lookup that was made for the inputs `f`; one that has not ended changes
  -- nothing.
  abbrev pub estimate_after : Inputs → Run → Preflight → Preflight
  estimate_after f run st = elim run.phase [
    | fetching ↦ st
    | reading r ↦ st
    | ended result ↦ estimate_replied f (lookup_reply parse stringify estimate_in result) st
  ]

  first_timeout :
      (path : String) (es : List Event)
      → runs parse stringify path (timeout ∷ es) begun
        ≡ record { phase = ended (thrown (rethrown timed_out)); timer = false }
  unfolding run_of happened api
  first_timeout path es = stays parse stringify path es _ refl refl

  first_abandoned :
      (path : String) (es : List Event)
      → runs parse stringify path (abandoned ∷ es) begun
        ≡ record { phase = ended (thrown (rethrown stopped_by_owner)); timer = false }
  unfolding run_of happened api
  first_abandoned path es = stays parse stringify path es _ refl refl

  -- A run that reads the body of the reply `r`
  abbrev at_body : Response → Run
  at_body r = record { phase = reading r; timer = true }

  reads_body :
      (path : String) (es : List Event) (r : Response)
      → (r.ok && r.status == 204) ≡ false
      → runs parse stringify path (fetched (returned r) ∷ es) begun
        ≡ runs parse stringify path es (at_body r)
  unfolding run_of happened reply_arrived
  reads_body path es r body = rw body refl

  -- A run that is stopped while it reads the body, for whatever reason
  abbrev cut : String → Response → Cause → Run
  cut path r reason =
      over parse stringify path (returned (with_body r (thrown reason) (thrown reason)))

  read_timeout :
      (path : String) (es : List Event) (r : Response)
      → runs parse stringify path (timeout ∷ es) (at_body r) ≡ cut path r timed_out
  unfolding run_of happened stop
  read_timeout path es r = stays parse stringify path es (cut path r timed_out) refl refl

  read_abandoned :
      (path : String) (es : List Event) (r : Response)
      → runs parse stringify path (abandoned ∷ es) (at_body r) ≡ cut path r stopped_by_owner
  unfolding run_of happened stop
  read_abandoned path es r = stays parse stringify path es (cut path r stopped_by_owner) refl refl

  -- The estimate after a stop in the body of a success, and of a refusal
  after_success :
      (path : String) (f : Inputs) (st : Preflight) (r : Response) (name message : String)
      → r.ok ≡ true
      → (r.status == 204) ≡ false
      → estimate_after f (cut path r (dom_exception name message)) st
        ≡ estimate_refused (("GET" & " " & path) & " returned invalid JSON: " & message) st
  unfolding estimate_replied lookup_reply is_abort_error api answer_of value_of
  after_success path f st r name message ok body = rw (ok, body) refl

  after_refusal :
      (path : String) (f : Inputs) (st : Preflight) (r : Response) (name message : String)
      → r.ok ≡ false
      → estimate_after f (cut path r (dom_exception name message)) st
        ≡ (if str_eq name "AbortError" then st else estimate_refused message st)
  unfolding estimate_replied lookup_reply is_abort_error api answer_of refusal
  after_refusal path f st r name message bad =
      rw bad (elim (Bool-cases (str_eq name "AbortError")) [
        | inl abort ↦ rw abort refl
        | inr other ↦ rw other refl
      ])

  -- A lookup whose time is over drops the estimate that is shown and says that the lookup timed out,
  -- after 35 seconds, and one that the form gives up changes nothing, whether the server has not
  -- answered yet or the body of its refusal is being read; whatever comes later. But where the body of
  -- a success is being read, either stop drops the estimate and reports invalid JSON.
  pub estimate_after-stop :
      (path : String) (es : List Event) (f : Inputs) (st : Preflight) (good bad : Response)
      → good.ok ≡ true
      → (good.status == 204) ≡ false
      → bad.ok ≡ false
      → let after =
          λ (events : List Event). estimate_after f (runs parse stringify path events begun) st in
        let late = estimate_refused "Provider lookup timed out after 35 seconds." st in
        let no_json = λ (message : String).
          estimate_refused (("GET" & " " & path) & " returned invalid JSON: " & message) st in
        (after (timeout ∷ es) ≡ late)
        × (after (abandoned ∷ es) ≡ st)
        × (after (fetched (returned bad) ∷ timeout ∷ es) ≡ late)
        × (after (fetched (returned bad) ∷ abandoned ∷ es) ≡ st)
        × (after (fetched (returned good) ∷ timeout ∷ es)
            ≡ no_json "Provider lookup timed out after 35 seconds.")
        × (after (fetched (returned good) ∷ abandoned ∷ es)
            ≡ no_json "signal is aborted without reason")
  unfolding estimate_replied lookup_reply is_abort_error show
  estimate_after-stop path es f st good bad g body b =
      let see = λ (run : Run). estimate_after f run st in
      let read_bad : (bad.ok && bad.status == 204) ≡ false = rw b refl in
      let read_good : (good.ok && good.status == 204) ≡ false = rw (g, body) refl in
      (
        ap see (first_timeout path es),
        ap see (first_abandoned path es),
        ap see (reads_body path (timeout ∷ es) bad read_bad ∙ read_timeout path es bad)
            ∙ after_refusal path f st bad _ _ b,
        ap see (reads_body path (abandoned ∷ es) bad read_bad ∙ read_abandoned path es bad)
            ∙ after_refusal path f st bad _ _ b,
        ap see (reads_body path (timeout ∷ es) good read_good ∙ read_timeout path es good)
            ∙ after_success path f st good _ _ g body,
        ap see (reads_body path (abandoned ∷ es) good read_good ∙ read_abandoned path es good)
            ∙ after_success path f st good _ _ g body,
      )
