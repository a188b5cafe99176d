-- ===== src/Tests/Requests.antt =====
-- Requests on concrete replies.
use modelshelf.Common.{String, true, false, Option, none, ◌≡◌, refl, show}
use modelshelf.Common.Scan.{trim}
use modelshelf.Api.{
  Json, null_value, Cause, dom_exception, rethrown, api_error, Outcome, returned, thrown, Response,
  api, is_abort_error,
}
use modelshelf.Api.Plain.{plain_text}
use modelshelf.NewTask.Form.{DownloadEstimate, initial}
use modelshelf.NewTask.Estimate.{request_of}
use modelshelf.Tests.Forms.{answer_to}

-- No text is JSON.
abbrev no_json : String → Option Json
no_json t = none

abbrev print : Json → String
print j = "null"

abbrev response : Response
response = record {
  ok = true;
  status = 200;
  status_text = "OK";
  text = returned "";
  json = returned null_value;
}

abbrev missing : Response
missing = record {
  ok = false;
  status = 404;
  status_text = "Not Found";
  text = returned "<h1>Not  here</h1>";
  json = returned null_value;
}

abbrev cut_off : Response
cut_off = record {
  ok = false;
  status = 500;
  status_text = "";
  text = thrown (dom_exception "AbortError" "stopped");
  json = returned null_value;
}

abbrev fetched_response : Outcome Cause Response
fetched_response = returned response

abbrev fetched_missing : Outcome Cause Response
fetched_missing = returned missing

abbrev fetched_cut_off : Outcome Cause Response
fetched_cut_off = returned cut_off

not_here :
    api no_json print "GET" "/x" fetched_missing
    ≡ thrown (api_error "GET /x returned HTTP 404: Not here" 404)
unfolding api show plain_text trim
not_here = refl

stopped :
    api no_json print "GET" "/x" fetched_cut_off
    ≡ thrown (rethrown (dom_exception "AbortError" "stopped"))
unfolding api
stopped = refl

is_stopped : is_abort_error (rethrown (dom_exception "AbortError" "stopped")) ≡ true
unfolding is_abort_error
is_stopped = refl

abbrev estimate_in : Option Json → DownloadEstimate
estimate_in body = answer_to (request_of initial)
