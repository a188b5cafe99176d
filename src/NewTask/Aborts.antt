-- ===== src/NewTask/Aborts.antt =====
-- The lookups of NewTaskPage.tsx on top of api.ts: what an abort does to the estimate.
use modelshelf.Common.{String, true, false, Option, none, ◌==◌, ◌≡◌, if◌then◌else◌, ◌&◌, arith}
use modelshelf.Api.{
  Json, Cause, dom_exception, Thrown, Outcome, returned, thrown, Response, is_abort_error,
  shown_message, api,
}
use modelshelf.NewTask.Form.{DownloadEstimate, Inputs, failed_lookup}
use modelshelf.NewTask.Estimate.{
  Preflight, EstimateReply, estimated, aborted, refused, estimate_replied, estimate_refused,
  estimate_is_current,
}

-- The body is taken for an estimate as it is.
module _ (parse : String → Option Json) (stringify : Json → String)
    (estimate_in : Option Json → DownloadEstimate) where
  -- How the lookup's promise ends, as `then` and `catch` see it.
  unfoldable pub lookup_reply : Outcome Thrown (Option Json) → EstimateReply
  lookup_reply (returned body) = estimated (estimate_in body)
  lookup_reply (thrown cause) =
      if is_abort_error cause then aborted else refused (shown_message cause)

  pub looked_up : String → Inputs → Outcome Cause Response → Preflight → Preflight
  unfolding lookup_reply
  looked_up path f fetched st =
      estimate_replied f (lookup_reply (api parse stringify "GET" path fetched)) st

  -- An abort that stops the fetch changes nothing; one that stops the reading of the reply's body is
  -- taken for a failure: it drops the estimate that is shown and reports invalid JSON.
  pub looked_up-abort :
      (path : String) (f : Inputs) (message : String) (st : Preflight)
      → (looked_up path f (thrown (dom_exception "AbortError" message)) st ≡ st)
        × ((r : Response)
            → r.ok ≡ true
            → (r.status == 204) ≡ false
            → r.json ≡ thrown (dom_exception "AbortError" message)
            → let after = looked_up path f (returned r) st in
              (after.estimate ≡ none)
              × (after.estimate_lookup ≡ failed_lookup)
              × (estimate_is_current after ≡ false)
              × (after.estimate_error
                  ≡ ("GET" & " " & path) & " returned invalid JSON: " & message))
  unfolding looked_up estimate_replied estimate_refused estimate_is_current api is_abort_error
  looked_up-abort path f message st = (ground arith, λ r fine full stopped. ground arith)
