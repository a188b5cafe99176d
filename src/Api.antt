-- ===== src/Api.antt =====
-- packages/ui/src/api.ts: a request to the server and its errors. What `fetch` and the reading of a
-- body end with are arguments; `JSON.parse` and `JSON.stringify` are the browser's.
pub mod Plain
pub mod Errors
use modelshelf.Common.{
  ℕ, ◌==◌, String, Bool, true, false, ◌||◌, Option, none, some, if◌then◌else◌, truthy, str_eq, ◌&◌,
  show,
}
use modelshelf.Common.Scan.{first}
use modelshelf.Api.Plain.{plain_text}

mutual
  pub data Json : Type 0 where
    null_value : Json
    bool_value : Bool → Json
    number_value : String → Json
    text_value : String → Json
    array_value : Items → Json
    object_value : Fields → Json

  pub data Items : Type 0 where
    no_items : Items
    item : Json → Items → Items

  pub data Fields : Type 0 where
    no_fields : Fields
    field : String → Json → Fields → Fields

-- What the browser throws.
pub data Cause : Type 0 where
  dom_exception : String → String → Cause
  other_error : String → Cause
  other_value : String → Cause

-- What `api` throws: a cause as it is, an `Error` with a message, or an `ApiError` with a status.
pub data Thrown : Type 0 where
  rethrown : Cause → Thrown
  error : String → Thrown
  api_error : String → ℕ → Thrown

pub data Outcome {ℓ} (E A : Type ℓ) : Type ℓ where
  returned : A → Outcome E A
  thrown : E → Outcome E A

pub record Response : Type 0 where
  pub ok : Bool
  pub status : ℕ
  pub status_text : String
  pub text : Outcome Cause String
  pub json : Outcome Cause Json

abbrev pub message_of : Cause → String
message_of (dom_exception name message) = message
message_of (other_error message) = message
message_of (other_value text) = text

abbrev pub is_stop : Cause → Bool
is_stop (dom_exception name message) = str_eq name "AbortError" || str_eq name "TimeoutError"
is_stop _ = false

abbrev pub lookup_field : String → Fields → Option Json
lookup_field name no_fields = none
lookup_field name (field key value rest) =
    if str_eq key name then some value else lookup_field name rest

-- `body.detail ?? body.error`, which throws (`none`) if the body is null, and may be undefined.
abbrev pub or_error : Option Json → Fields → Option Json
or_error none body = lookup_field "error" body
or_error (some null_value) body = lookup_field "error" body
or_error (some value) body = some value

unfoldable pub candidate : Json → Option (Option Json)
candidate null_value = none
candidate (object_value body) = some (or_error (lookup_field "detail" body) body)
candidate _ = some none

unfoldable pub reason_of : String → String → String
reason_of detail status_text =
    if truthy detail
    then detail
    else if truthy status_text
    then status_text
    else "request failed without a response body"

module _ (parse : String → Option Json) (stringify : Json → String) where
  -- An undefined candidate counts as the empty text.
  detail_text : String → Option (Option Json) → String
  detail_text raw none = plain_text raw
  detail_text raw (some none) = ""
  detail_text raw (some (some (text_value t))) = t
  detail_text raw (some (some value)) = stringify value

  body_detail : String → Option Json → String
  unfolding detail_text candidate
  body_detail raw none = plain_text raw
  body_detail raw (some body) = detail_text raw (candidate body)

  unfoldable pub detail_of : String → String
  unfolding body_detail
  detail_of raw = if truthy raw then body_detail raw (parse raw) else ""

  unfoldable pub refusal : String → Response → Outcome Cause String → Thrown
  unfolding reason_of detail_of first
  refusal request response (thrown cause) = rethrown cause
  refusal request response (returned raw) =
      api_error
        (request
          & " returned HTTP "
          & show response.status
          & ": "
          & first 4000 (reason_of (detail_of raw) response.status_text))
        response.status

  unfoldable pub value_of : String → Outcome Cause Json → Outcome Thrown (Option Json)
  value_of request (returned value) = returned (some value)
  value_of request (thrown cause) =
      thrown (error (request & " returned invalid JSON: " & message_of cause))

  unfoldable pub answer_of : String → Response → Outcome Thrown (Option Json)
  unfolding refusal value_of
  answer_of request response =
      if response.ok
      then if response.status == 204 then returned none else value_of request response.json
      else thrown (refusal request response response.text)

  -- `api`, for the outcome of `fetch`; `none` is `undefined`.
  unfoldable pub api : String → String → Outcome Cause Response → Outcome Thrown (Option Json)
  unfolding answer_of
  api method path (returned response) = answer_of (method & " " & path) response
  api method path (thrown cause) =
      if is_stop cause
      then thrown (rethrown cause)
      else thrown (error (method & " " & path & " could not reach ModelShelf: " & message_of cause))

-- `isAbortError` of packages/ui/src/pages/NewTaskPage.tsx
unfoldable pub is_abort_error : Thrown → Bool
is_abort_error (rethrown (dom_exception name message)) = str_eq name "AbortError"
is_abort_error _ = false

-- `cause instanceof Error ? cause.message : String(cause)`
abbrev pub shown_message : Thrown → String
shown_message (rethrown cause) = message_of cause
shown_message (error message) = message
shown_message (api_error message status) = message
