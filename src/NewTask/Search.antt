-- ===== src/NewTask/Search.antt =====
-- The searches for models and for revisions: two effects with one structure, which differ in when a
-- search is made and in what its reply changes besides.
pub mod Options
use modelshelf.Common.{
  ℕ, ltb, leb, String, List, [], Bool, true, false, ◌&&◌, ◌||◌, not, Option, none, some,
  if◌then◌else◌, length,
}
use modelshelf.Common.Scan.{trim, count_units}
use modelshelf.Task.{Provider}
use modelshelf.Progress.{is_http}
use modelshelf.NewTask.Form.{
  LookupState, idle, loading, ready, failed_lookup, ModelOption, RevisionOption, ParsedUrl, Inputs,
  has_complete_model_id,
}
use modelshelf.NewTask.Estimate.{Preflight, EstimateReply, default_loaded}

-- The options that were found, the state of the search, the text that the last effect scheduled a
-- search for, and whether its timer has fired, so that the request was sent.
pub record Search {ℓ} (A : Type ℓ) : Type ℓ where
  pub options : List A
  pub lookup : LookupState
  pub error : String
  pub live : Option String
  pub requested : Bool

-- How the request of a search ends, by its own abort or otherwise.
pub data SearchReply {ℓ} (A : Type ℓ) : Type ℓ where
  found : List A → SearchReply A
  stopped : SearchReply A
  failed : String → SearchReply A

module _ {ℓ} {A : Type ℓ} where
  abbrev pub unsearched : Search A
  unsearched = record { options = []; lookup = idle; error = ""; live = none; requested = false }

  -- The effect after a change of its inputs: the search under way is dropped, and one for the text is
  -- scheduled if there is enough to search for.
  unfoldable pub search_effect : Bool → String → Search A → Search A
  search_effect false text s = unsearched
  search_effect true text s = record s { live = some text; requested = false }

  -- The timer of the effect fires, and the request is sent.
  unfoldable pub search_timer : Search A → Search A
  search_timer s = elim s.live [
    | none ↦ s
    | some text ↦
        if s.requested then s else record s { lookup = loading; error = ""; requested = true }
  ]

  -- A reply, be it that of the last request or a late one of a request that was dropped
  unfoldable pub search_replied : SearchReply A → Search A → Search A
  search_replied (found options) s = record s { options = options; lookup = ready }
  search_replied stopped s = s
  search_replied (failed message) s = record s {
    options = [];
    lookup = failed_lookup;
    error = message;
  }

-- Whether models are searched for: not for the HTTP provider, and from two characters on.
unfoldable pub searches_models : Inputs → Bool
searches_models f = not (is_http f.provider || ltb (count_units (trim f.id)) 2)

-- Whether revisions are searched for.
unfoldable pub searches_revisions : Inputs → Bool
searches_revisions f = has_complete_model_id f.provider (trim f.id)

pub record RevisionDiscovery : Type 0 where
  pub default_revision : String
  pub revisions : List RevisionOption

-- The reply to the search for revisions also sets the revision, unless the user has edited it.
-- `new URL` is the browser's.
unfoldable pub revisions_found :
    (String → Option ParsedUrl)
    → RevisionDiscovery
    → Search RevisionOption × Preflight
    → Search RevisionOption × Preflight
revisions_found parse_url d (s, st) =
    (search_replied (found d.revisions) s, default_loaded parse_url d.default_revision st)
