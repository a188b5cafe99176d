-- ===== src/Queue/Filters.antt =====
-- The filters and the offset of the list of downloads, which are kept in the page's address.
pub mod Roundtrip
use modelshelf.Common.{
  ℕ, zero, suc, ◌+◌, ◌-◌, ◌*◌, ◌/◌, min, ltb, leb, ◌==◌, String, List, [], ◌∷◌, Bool, true, false,
  ◌||◌, not, Option, none, some, if◌then◌else◌, get_or, str_eq, show, find, truthy, length,
}
use modelshelf.Common.Params
use modelshelf.Common.Params.{Params}
use modelshelf.Task.{
  Provider, huggingface, modelscope_cn, modelscope_ai, github_release, kaggle, http, filesystem,
  TaskStatus, scheduled, queued, resolving, downloading, verifying, awaiting_confirmation,
  publishing, paused, cancelled, completed, failed,
}

abbrev pub page_size : ℕ
page_size = 50

pub data StatusFilter : Type 0 where
  active_paused active all_statuses : StatusFilter
  only : TaskStatus → StatusFilter

unfoldable pub provider_value : Provider → String
provider_value huggingface = "huggingface"
provider_value modelscope_cn = "modelscope-cn"
provider_value modelscope_ai = "modelscope-ai"
provider_value github_release = "github-release"
provider_value kaggle = "kaggle"
provider_value http = "http"
provider_value filesystem = "filesystem"

unfoldable pub status_value : TaskStatus → String
status_value scheduled = "scheduled"
status_value queued = "queued"
status_value resolving = "resolving"
status_value downloading = "downloading"
status_value verifying = "verifying"
status_value awaiting_confirmation = "awaiting_confirmation"
status_value publishing = "publishing"
status_value paused = "paused"
status_value cancelled = "cancelled"
status_value completed = "completed"
status_value failed = "failed"

-- The value of an option of the source menu; `none` is "", all sources.
unfoldable pub source_value : Option Provider → String
unfolding provider_value
source_value none = ""
source_value (some p) = provider_value p

unfoldable pub filter_value : StatusFilter → String
unfolding status_value
filter_value active_paused = "active-paused"
filter_value active = "active"
filter_value all_statuses = "all"
filter_value (only s) = status_value s

abbrev pub source_options : List (Option Provider)
source_options =
    none
    ∷ some huggingface
    ∷ some modelscope_cn
    ∷ some modelscope_ai
    ∷ some github_release
    ∷ some kaggle
    ∷ some http
    ∷ some filesystem
    ∷ []

abbrev pub status_options : List StatusFilter
status_options =
    active_paused
    ∷ all_statuses
    ∷ active
    ∷ only scheduled
    ∷ only downloading
    ∷ only paused
    ∷ only completed
    ∷ only failed
    ∷ only queued
    ∷ only awaiting_confirmation
    ∷ only cancelled
    ∷ only resolving
    ∷ only verifying
    ∷ only publishing
    ∷ []

abbrev pub equals? : Option String → String → Bool
equals? none t = false
equals? (some s) t = str_eq t s

unfoldable pub query_of : Params → String
query_of ps = get_or (Params.get "q" ps) ""

unfoldable pub read_provider : Option String → Option Provider
unfolding source_value
read_provider t = get_or (find (λ o. equals? t (source_value o)) source_options) none

unfoldable pub provider_of : Params → Option Provider
provider_of ps = read_provider (Params.get "provider" ps)

unfoldable pub read_status_filter : Option String → StatusFilter
unfolding filter_value
read_status_filter t = get_or (find (λ f. equals? t (filter_value f)) status_options) active_paused

unfoldable pub status_filter_of : Params → StatusFilter
status_filter_of ps = read_status_filter (Params.get "statusFilter" ps)

-- What `Number` makes of a text.
pub data JsNumber : Type 0 where
  not_finite negative : JsNumber
  fraction : ℕ → ℕ → JsNumber

-- `Math.max(0, Math.floor(requestedOffset / pageSize) * pageSize)`
unfoldable pub aligned : JsNumber → ℕ
aligned not_finite = 0
aligned negative = 0
aligned (fraction n d) = n / (d * page_size) * page_size

-- An entry of the object that `updateFilters` takes.
pub data FilterEntry : Type 0 where
  q : String → FilterEntry
  provider : Option Provider → FilterEntry
  status_filter : StatusFilter → FilterEntry
  offset : ℕ → FilterEntry

abbrev pub is_default_filter : StatusFilter → Bool
is_default_filter active_paused = true
is_default_filter _ = false

-- One round of the loop of `updateFilters`.
unfoldable pub update_filter : FilterEntry → Params → Params
unfolding source_value filter_value
update_filter (q t) ps = if truthy t then Params.set "q" t ps else Params.delete "q" ps
update_filter (provider none) ps = Params.delete "provider" ps
update_filter (provider (some p)) ps = Params.set "provider" (provider_value p) ps
update_filter (status_filter f) ps =
    if is_default_filter f
    then Params.delete "statusFilter" ps
    else Params.set "statusFilter" (filter_value f) ps
update_filter (offset n) ps =
    if n == 0 then Params.delete "offset" ps else Params.set "offset" (show n) ps

unfoldable pub update_filters : List FilterEntry → Params → Params
unfolding update_filter
update_filters [] ps = ps
update_filters (e ∷ es) ps = update_filters es (update_filter e ps)

-- `Number(text)` is the browser's; of a missing parameter it is 0.
module _ (number : String → JsNumber) where
  requested_offset : Option String → JsNumber
  requested_offset none = fraction 0 1
  requested_offset (some t) = number t

  pub offset_of : Params → ℕ
  unfolding aligned requested_offset
  offset_of ps = aligned (requested_offset (Params.get "offset" ps))

-- The handlers of the filter controls and of the pager.
unfoldable pub search_changed : String → Params → Params
unfolding update_filters
search_changed value = update_filters (q value ∷ offset 0 ∷ [])

unfoldable pub source_changed : Option Provider → Params → Params
unfolding update_filters
source_changed value = update_filters (provider value ∷ offset 0 ∷ [])

unfoldable pub status_changed : StatusFilter → Params → Params
unfolding update_filters
status_changed value = update_filters (status_filter value ∷ offset 0 ∷ [])

unfoldable pub reset_filters : Params → Params
unfolding update_filters
reset_filters = update_filters (q "" ∷ provider none ∷ status_filter active_paused ∷ offset 0 ∷ [])

unfoldable pub previous_page : ℕ → Params → Params
unfolding update_filters
previous_page at = update_filters (offset (at - page_size) ∷ [])

unfoldable pub next_page : ℕ → Params → Params
unfolding update_filters
next_page at = update_filters (offset (at + page_size) ∷ [])

unfoldable pub previous_disabled : ℕ → Bool
previous_disabled at = at == 0

unfoldable pub next_disabled : ℕ → ℕ → ℕ → Bool
next_disabled at shown total = leb total (at + shown)

-- `query || provider || statusFilter !== "active-paused"`
unfoldable pub can_reset : Params → Bool
unfolding query_of provider_of status_filter_of source_value
can_reset ps =
    truthy (query_of ps)
    || truthy (source_value (provider_of ps))
    || not (is_default_filter (status_filter_of ps))
