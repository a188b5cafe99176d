-- ===== src/Artifacts/Filters/Requests.antt =====
-- What the filter controls make of the request.
use modelshelf.Common.{
  ℕ, String, [], ◌∷◌, Option, none, some, if◌then◌else◌, str_eq, truthy, show, ◌≡◌, arith,
}
use modelshelf.Common.Params
use modelshelf.Common.Params.{Params, get-set, get-delete}
use modelshelf.Task.{Provider}
use modelshelf.Queue.Filters.{provider_value, source_value}
use modelshelf.Artifacts.Filters.{
  SortOption, sort_value, q, provider, sort, is_newest, update_shelf_filter, update_shelf_filters,
  sort_by, sort_order,
}

get-update_query :
    (t k : String) (ps : Params)
    → Params.get k (update_shelf_filter (q t) ps)
      ≡ (if str_eq "q" k then (if truthy t then some t else none) else Params.get k ps)
unfolding update_shelf_filter
get-update_query t k ps = ground (arith, get-set "q" k t ps, get-delete "q" k ps)

get-update_source :
    (p : Option Provider) (k : String) (ps : Params)
    → Params.get k (update_shelf_filter (provider p) ps) ≡ (
        if str_eq "provider" k
        then elim p [ none ↦ none | some x ↦ some (provider_value x) ]
        else Params.get k ps)
unfolding update_shelf_filter
get-update_source none k ps = get-delete "provider" k ps
get-update_source (some p) k ps = get-set "provider" k (provider_value p) ps

get-update_sort :
    (s : SortOption) (k : String) (ps : Params)
    → Params.get k (update_shelf_filter (sort s) ps) ≡ (
        if str_eq "sort" k
        then (if is_newest s then none else some (sort_value s))
        else Params.get k ps)
unfolding update_shelf_filter
get-update_sort s k ps = ground (arith, get-set "sort" k (sort_value s) ps, get-delete "sort" k ps)

ruleset shelf_updates = (get-update_query, get-update_source, get-update_sort)

-- What a request for a part of the list asks for.
pub record Asks (ps : Params) (t : String) (p : Option Provider) (s : SortOption) (offset : ℕ)
    : Type 0 where
  pub limit : Params.get "limit" ps ≡ some (show 48)
  pub from : Params.get "offset" ps ≡ some (show offset)
  pub text : Params.get "q" ps ≡ (if truthy t then some t else none)
  pub source :
      Params.get "provider" ps ≡ (if truthy (source_value p) then some (source_value p) else none)
  pub by : Params.get "sortBy" ps ≡ some (sort_by s)
  pub order : Params.get "sortOrder" ps ≡ some (sort_order s)

-- The address that the controls leave.
abbrev pub set_to : Params → String → Option Provider → SortOption → Params
set_to ps t p s = update_shelf_filters (q t ∷ provider p ∷ sort s ∷ []) ps
