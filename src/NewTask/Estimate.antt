-- ===== src/NewTask/Estimate.antt =====
-- The preflight of the form: when an estimate is requested, and what its reply changes.
use modelshelf.Common.{
  String, Bool, true, false, ◌&&◌, ◌||◌, not, Option, none, some, str_eq, if◌then◌else◌, truthy,
}
use modelshelf.Common.Scan.{trim}
use modelshelf.Task.{Provider}
use modelshelf.Queue.Filters.{provider_value}
use modelshelf.NewTask.Form.{
  LookupState, idle, loading, ready, failed_lookup, DownloadEstimate, ParsedUrl, Inputs, initial,
  Control, edit, temporary_mirror, estimate_key_of, can_estimate,
}

-- A lookup that waits for its timer or for its reply, for the inputs that it was made for.
pub record Lookup : Type 0 where
  pub inputs : Inputs
  pub sent : Bool

pub record Preflight : Type 0 where
  pub inputs : Inputs
  pub estimate : Option DownloadEstimate
  pub estimate_key : String
  pub estimate_lookup : LookupState
  pub estimate_error : String
  -- The effect's timer and controller.
  pub live : Option Lookup

abbrev pub opened : Preflight
opened = record {
  inputs = initial;
  estimate = none;
  estimate_key = "";
  estimate_lookup = idle;
  estimate_error = "";
  live = none;
}

unfoldable pub invalidate_estimate : Preflight → Preflight
invalidate_estimate st = record st {
  estimate = none;
  estimate_key = "";
  estimate_lookup = idle;
  estimate_error = "";
}

-- The parameters of the request for an estimate.
pub record EstimateRequest : Type 0 where
  pub provider : Provider
  pub id : String
  pub revision : String
  pub disable_mirror : Bool
  pub disable_proxy : Bool
  pub mirror_url : Option String

unfoldable pub request_of : Inputs → EstimateRequest
unfolding temporary_mirror
request_of f = record {
  provider = f.provider;
  id = trim f.id;
  revision = trim f.revision;
  disable_mirror = f.disable_mirror;
  disable_proxy = f.disable_proxy;
  mirror_url = if truthy (temporary_mirror f) then some (temporary_mirror f) else none;
}

-- How a lookup ends: with an estimate, by its own abort, or with the message of another error.
pub data EstimateReply : Type 0 where
  estimated : DownloadEstimate → EstimateReply
  aborted : EstimateReply
  refused : String → EstimateReply

unfoldable pub estimate_refused : String → Preflight → Preflight
estimate_refused message st = record st {
  estimate = none;
  estimate_key = "";
  estimate_lookup = failed_lookup;
  estimate_error = message;
}

-- The reply to the lookup that was made for the inputs `f`.
unfoldable pub estimate_replied : Inputs → EstimateReply → Preflight → Preflight
unfolding estimate_refused
estimate_replied f (estimated e) st = record st {
  estimate = some e;
  estimate_key = estimate_key_of f;
  estimate_lookup = ready;
}
estimate_replied f aborted st = st
estimate_replied f (refused message) st = estimate_refused message st

-- The live lookup is over.
unfoldable pub settled : Preflight → Preflight
settled st = record st { live = none }

abbrev pub same_bool : Bool → Bool → Bool
same_bool true b = b
same_bool false b = not b

-- Whether the dependencies of the effect are as they were.
unfoldable pub same_dependencies : Inputs → Inputs → Bool
same_dependencies f g =
    str_eq (provider_value f.provider) (provider_value g.provider)
    && str_eq f.id g.id
    && str_eq f.revision g.revision
    && same_bool f.disable_mirror g.disable_mirror
    && same_bool f.use_temporary_mirror g.use_temporary_mirror
    && str_eq f.mirror_url g.mirror_url
    && same_bool f.disable_proxy g.disable_proxy

-- `new URL` is the browser's.
module _ (parse_url : String → Option ParsedUrl) where
  -- The effect after a change of its inputs: the lookup under way is dropped (its timer is cleared
  -- and its request aborted), and a new one is scheduled if the form is complete.
  unfoldable pub inputs_effect : Preflight → Preflight
  unfolding invalidate_estimate
  inputs_effect st =
      if can_estimate parse_url st.inputs
      then record st { live = some (record { inputs = st.inputs; sent = false }) }
      else record (invalidate_estimate st) { live = none }

  -- The render after a change: the effect runs if one of its dependencies differs from `old`.
  unfoldable pub rendered : Inputs → Preflight → Preflight
  unfolding inputs_effect
  rendered old st = if same_dependencies old st.inputs then st else inputs_effect st

  -- A handler, `invalidateEstimate`, and the effect of the next render.
  unfoldable pub controlled : Control → Preflight → Preflight
  unfolding rendered
  controlled c st = elim (edit c st.inputs) [
    | none ↦ st
    | some f ↦ rendered st.inputs (invalidate_estimate (record st { inputs = f }))
  ]

  -- The revision lookup's default, unless the user has edited the revision.
  unfoldable pub default_loaded : String → Preflight → Preflight
  unfolding inputs_effect
  default_loaded revision st =
      if st.inputs.revision_edited || str_eq st.inputs.revision revision
      then st
      else inputs_effect (record st { inputs = record (st.inputs) { revision = revision } })

-- The timer of the effect fires, 500 ms after the change.
unfoldable pub timer_fired : Preflight → Preflight
timer_fired st = elim st.live [
  | none ↦ st
  | some l ↦ if l.sent then st else record st {
    estimate_lookup = loading;
    estimate_error = "";
    live = some (record { inputs = l.inputs; sent = true });
  }
]

abbrev pub is_ready : LookupState → Bool
is_ready ready = true
is_ready _ = false

abbrev pub is_downloadable : Option DownloadEstimate → Bool
is_downloadable none = false
is_downloadable (some e) = e.downloadable

-- `estimateIsCurrent`
unfoldable pub estimate_is_current : Preflight → Bool
estimate_is_current st =
    is_ready st.estimate_lookup
    && str_eq st.estimate_key (estimate_key_of st.inputs)
    && is_downloadable st.estimate
