-- ===== src/Artifacts/Filters.antt =====
-- The filters and the order of the artifacts, which are kept in the page's address, and the request
-- for a part of the list.
pub mod Requests
use modelshelf.Common.{
  ℕ, ◌==◌, String, Char, code, List, [], ◌∷◌, ◌++◌, Bool, true, false, ◌||◌, not, Option, none,
  some, get_or, find, if◌then◌else◌, str_eq, truthy, show, ◌&◌,
}
use Prim.Native.String
use modelshelf.Common.Params
use modelshelf.Common.Params.{Params}
use modelshelf.Task.{Provider}
use modelshelf.Queue.Filters.{equals?, provider_value, source_value, query_of, provider_of}

abbrev pub page_size : ℕ
page_size = 48

pub data SortOption : Type 0 where
  newest oldest name_up name_down largest smallest : SortOption

unfoldable pub sort_value : SortOption → String
sort_value newest = "created:desc"
sort_value oldest = "created:asc"
sort_value name_up = "name:asc"
sort_value name_down = "name:desc"
sort_value largest = "size:desc"
sort_value smallest = "size:asc"

abbrev pub sort_options : List SortOption
sort_options = newest ∷ oldest ∷ name_up ∷ name_down ∷ largest ∷ smallest ∷ []

unfoldable pub read_sort : Option String → SortOption
unfolding sort_value
read_sort t = get_or (find (λ s. equals? t (sort_value s)) sort_options) newest

unfoldable pub sort_of : Params → SortOption
sort_of ps = read_sort (Params.get "sort" ps)

-- An entry of the object that `updateFilters` takes.
pub data ShelfFilter : Type 0 where
  q : String → ShelfFilter
  provider : Option Provider → ShelfFilter
  sort : SortOption → ShelfFilter

abbrev pub is_newest : SortOption → Bool
is_newest newest = true
is_newest _ = false

-- One round of the loop of `updateFilters`.
unfoldable pub update_shelf_filter : ShelfFilter → Params → Params
unfolding sort_value
update_shelf_filter (q t) ps = if truthy t then Params.set "q" t ps else Params.delete "q" ps
update_shelf_filter (provider none) ps = Params.delete "provider" ps
update_shelf_filter (provider (some p)) ps = Params.set "provider" (provider_value p) ps
update_shelf_filter (sort s) ps =
    if is_newest s then Params.delete "sort" ps else Params.set "sort" (sort_value s) ps

unfoldable pub update_shelf_filters : List ShelfFilter → Params → Params
unfolding update_shelf_filter
update_shelf_filters [] ps = ps
update_shelf_filters (e ∷ es) ps = update_shelf_filters es (update_shelf_filter e ps)

-- `query || provider || sort !== "created:desc"`
unfoldable pub can_reset_shelf : Params → Bool
unfolding query_of provider_of sort_of source_value
can_reset_shelf ps =
    truthy (query_of ps) || truthy (source_value (provider_of ps)) || not (is_newest (sort_of ps))

-- `sort.split(":")`, which has two parts
before_colon : String → String
before_colon String.[] = ""
before_colon (String.◌∷◌ c s) =
    let rest = before_colon s in if code c == 58 then "" else String.◌∷◌ c rest

after_colon : String → String
after_colon String.[] = ""
after_colon (String.◌∷◌ c s) = let rest = after_colon s in if code c == 58 then s else rest

unfoldable pub sort_by : SortOption → String
unfolding sort_value before_colon
sort_by s = before_colon (sort_value s)

unfoldable pub sort_order : SortOption → String
unfolding sort_value after_colon
sort_order s = after_colon (sort_value s)

unfoldable pub set_if : Bool → String → String → Params → Params
set_if true key value ps = Params.set key value ps
set_if false key value ps = ps

-- The parameters of `artifactsPath`
unfoldable pub artifacts_parameters : String → Option Provider → SortOption → ℕ → Params
artifacts_parameters query source s offset =
    let base : Params =
      ("limit", show page_size)
      ∷ ("offset", show offset)
      ∷ ("sortBy", sort_by s)
      ∷ ("sortOrder", sort_order s)
      ∷ [] in
    set_if (truthy (source_value source)) "provider" (source_value source)
      (set_if (truthy query) "q" query base)

-- The parameters of the request for the artifacts from an offset on, for the page's address.
unfoldable pub shelf_request : Params → ℕ → Params
unfolding query_of provider_of sort_of artifacts_parameters
shelf_request address offset =
    artifacts_parameters (query_of address) (provider_of address) (sort_of address) offset
