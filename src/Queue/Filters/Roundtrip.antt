-- ===== src/Queue/Filters/Roundtrip.antt =====
-- What a filter control writes into the address is what the page reads back.
use modelshelf.Common.{
  ℕ, zero, suc, ◌*◌, String, [], ◌∷◌, false, Option, none, some, ◌≡◌, refl, show, get_or, truthy,
  arith, ◌==◌, str_eq, if◌then◌else◌,
}
use modelshelf.Common.Params
use modelshelf.Common.Params.{Params, get-set, get-delete}
use modelshelf.Task.{
  Provider, huggingface, modelscope_cn, modelscope_ai, github_release, kaggle, http, filesystem,
  scheduled, queued, resolving, downloading, verifying, awaiting_confirmation, publishing, paused,
  cancelled, completed, failed,
}
use modelshelf.Queue.Filters.{
  page_size, StatusFilter, active_paused, active, all_statuses, only, source_value, provider_value,
  filter_value, read_provider, read_status_filter, query_of, provider_of, status_filter_of,
  JsNumber, fraction, offset_of, update_filter, is_default_filter, update_filters, search_changed,
  source_changed, status_changed, reset_filters, can_reset, q, provider, status_filter, offset,
}

pub read_provider-source_value : (p : Option Provider) → read_provider (some (source_value p)) ≡ p
unfolding read_provider
read_provider-source_value none = refl
read_provider-source_value (some huggingface) = refl
read_provider-source_value (some modelscope_cn) = refl
read_provider-source_value (some modelscope_ai) = refl
read_provider-source_value (some github_release) = refl
read_provider-source_value (some kaggle) = refl
read_provider-source_value (some http) = refl
read_provider-source_value (some filesystem) = refl

read_provider_missing : read_provider none ≡ none
unfolding read_provider
read_provider_missing = refl

read_filter-filter_value : (f : StatusFilter) → read_status_filter (some (filter_value f)) ≡ f
unfolding read_status_filter
read_filter-filter_value active_paused = refl
read_filter-filter_value active = refl
read_filter-filter_value all_statuses = refl
read_filter-filter_value (only scheduled) = refl
read_filter-filter_value (only queued) = refl
read_filter-filter_value (only resolving) = refl
read_filter-filter_value (only downloading) = refl
read_filter-filter_value (only verifying) = refl
read_filter-filter_value (only awaiting_confirmation) = refl
read_filter-filter_value (only publishing) = refl
read_filter-filter_value (only paused) = refl
read_filter-filter_value (only cancelled) = refl
read_filter-filter_value (only completed) = refl
read_filter-filter_value (only failed) = refl

read_filter_missing : read_status_filter none ≡ active_paused
unfolding read_status_filter
read_filter_missing = refl

-- The four reads of the page.
pub record Reads (number : String → JsNumber) (ps : Params) (t : String) (p : Option Provider)
    (f : StatusFilter) (n : ℕ) : Type 0 where
  pub query : query_of ps ≡ t
  pub source : provider_of ps ≡ p
  pub status : status_filter_of ps ≡ f
  pub at : offset_of number ps ≡ n

get-update_query :
    (t k : String) (ps : Params)
    → Params.get k (update_filter (q t) ps)
      ≡ (if str_eq "q" k then (if truthy t then some t else none) else Params.get k ps)
unfolding update_filter
get-update_query t k ps = ground (arith, get-set "q" k t ps, get-delete "q" k ps)

get-update_offset :
    (n : ℕ) (k : String) (ps : Params)
    → Params.get k (update_filter (offset n) ps)
      ≡ (if str_eq "offset" k then (if n == 0 then none else some (show n)) else Params.get k ps)
unfolding update_filter
get-update_offset n k ps = ground (arith, get-set "offset" k (show n) ps, get-delete "offset" k ps)

get-update_source :
    (p : Option Provider) (k : String) (ps : Params)
    → Params.get k (update_filter (provider p) ps) ≡ (
        if str_eq "provider" k
        then elim p [ none ↦ none | some x ↦ some (provider_value x) ]
        else Params.get k ps)
unfolding update_filter
get-update_source none k ps = get-delete "provider" k ps
get-update_source (some p) k ps = get-set "provider" k (provider_value p) ps

get-update_status :
    (f : StatusFilter) (k : String) (ps : Params)
    → Params.get k (update_filter (status_filter f) ps) ≡ (
        if str_eq "statusFilter" k
        then (if is_default_filter f then none else some (filter_value f))
        else Params.get k ps)
unfolding update_filter
get-update_status f k ps =
    ground (arith, get-set "statusFilter" k (filter_value f) ps, get-delete "statusFilter" k ps)

pub query_text : (t : String) → get_or (if truthy t then some t else none) "" ≡ t
query_text String.[] = refl
query_text (String.◌∷◌ c s) = refl

pub source_text :
    (p : Option Provider)
    → read_provider (elim p [ none ↦ none | some x ↦ some (provider_value x) ]) ≡ p
unfolding read_provider
source_text none = refl
source_text (some p) = read_provider-source_value (some p)

status_text :
    (f : StatusFilter)
    → read_status_filter (if is_default_filter f then none else some (filter_value f)) ≡ f
unfolding read_status_filter
status_text active_paused = refl
status_text f = read_filter-filter_value f

offset_text :
    (number : String → JsNumber) (k : ℕ) (ps : Params)
    → number (show (k * page_size)) ≡ fraction (k * page_size) 1
    → offset_of number (update_filter (offset (k * page_size)) ps) ≡ k * page_size
unfolding offset_of
offset_text number zero ps h = rw (get-update_offset 0 "offset" ps)
offset_text number (suc k) ps h =
    rw (get-update_offset (suc k * page_size) "offset" ps)
      (let e : (suc k * page_size == 0) ≡ false = ground arith in rw (e, h) (omega arith))

ruleset updates = (get-update_query, get-update_offset, get-update_source, get-update_status)

-- Whatever search text, source, status and page the list is given, the page reads back exactly
-- these from its address; the offset is that of a whole page, and `Number` reads its decimal text.
pub update_filters-Reads :
    (number : String → JsNumber) (ps : Params) (t : String) (p : Option Provider) (f : StatusFilter)
    (k : ℕ)
    → number (show (k * page_size)) ≡ fraction (k * page_size) 1
    → Reads number
        (update_filters (q t ∷ provider p ∷ status_filter f ∷ offset (k * page_size) ∷ []) ps)
        t
        p
        f
        (k * page_size)
unfolding update_filters query_of provider_of status_filter_of
update_filters-Reads number ps t p f k h = record {
  query = simp updates (query_text t);
  source = simp updates (source_text p);
  status = simp updates (status_text f);
  at = offset_text number k _ h;
}

-- Each filter control sets its own filter, keeps the other two, and goes back to the first page.
pub filter_changed-Reads :
    (number : String → JsNumber) (ps : Params) (t : String) (p : Option Provider) (f : StatusFilter)
    → Reads number (search_changed t ps) t (provider_of ps) (status_filter_of ps) 0
      × Reads number (source_changed p ps) (query_of ps) p (status_filter_of ps) 0
      × Reads number (status_changed f ps) (query_of ps) (provider_of ps) f 0
unfolding search_changed source_changed status_changed query_of provider_of status_filter_of
    offset_of
filter_changed-Reads number ps t p f = (
  record {
    query = simp updates (query_text t);
    source = simp updates;
    status = simp updates;
    at = simp updates;
  },
  record {
    query = simp updates;
    source = simp updates (source_text p);
    status = simp updates;
    at = simp updates;
  },
  record {
    query = simp updates;
    source = simp updates;
    status = simp updates (status_text f);
    at = simp updates;
  },
)

-- After a reset nothing is left to reset: the reset button is gone, whatever the filters were.
pub reset-can_reset : (ps : Params) → can_reset (reset_filters ps) ≡ false
unfolding can_reset reset_filters query_of provider_of status_filter_of read_provider
    read_status_filter
reset-can_reset ps = simp updates
