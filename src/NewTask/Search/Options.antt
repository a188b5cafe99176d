-- ===== src/NewTask/Search/Options.antt =====
-- What the searches show.
use mathlib.Core.List.{Memᴰ}
use mathlib.Core.List.Memᴰ.{tail}
use modelshelf.Common.{
  String, List, [], ◌∷◌, Bool, true, false, Option, none, some, if◌then◌else◌, ◌≡◌, refl, arith,
}
use modelshelf.NewTask.Form.{idle, loading, failed_lookup}
use modelshelf.NewTask.Search.{
  Search, found, stopped, failed, unsearched, search_effect, search_timer, search_replied,
}

module _ {ℓ} {A : Type ℓ} where
  -- The text for which the timer, where it fires now, sends a request
  abbrev pub sent_by : Search A → List String → List String
  sent_by s asked = elim s.live [
    | none ↦ asked
    | some text ↦ if s.requested then asked else text ∷ asked
  ]

-- The reachable states of a search with the texts for which a request was sent, the last one first,
-- where `Answers text options` says that the server answers a search for the text with the options.
-- A reply may be that of any of these requests, and come late.
module _ {ℓ} {A : Type ℓ} (Answers : String → List A → Type 0) where
  pub data Reach : List String → Search A → Type ℓ where
    start : Reach [] unsearched
    change :
        {asked : List String} {s : Search A}
        → (enough : Bool) (text : String) → Reach asked s
        → Reach asked (search_effect enough text s)
    timer :
        {asked : List String} {s : Search A}
        → Reach asked s
        → Reach (sent_by s asked) (search_timer s)
    answer :
        {asked : List String} {s : Search A}
        → (text : String) (options : List A) → Memᴰ text asked
        → Answers text options
        → Reach asked s
        → Reach asked (search_replied (found options) s)
    stop :
        {asked : List String} {s : Search A}
        → Reach asked s
        → Reach asked (search_replied stopped s)
    failure :
        {asked : List String} {s : Search A}
        → (text message : String) → Memᴰ text asked
        → Reach asked s
        → Reach asked (search_replied (failed message) s)

  -- The options are none, or the server's answer to one of the texts.
  pub data Source (asked : List String) (options : List A) : Type ℓ where
    nothing : options ≡ [] → Source asked options
    answered : (text : String) → Memᴰ text asked → Answers text options → Source asked options

  pub record Sound (asked : List String) (s : Search A) : Type ℓ where
    pub source : Source asked s.options
    pub idle_empty : s.lookup ≡ idle → (s.options ≡ []) × (s.error ≡ "")
    pub failed_empty : s.lookup ≡ failed_lookup → s.options ≡ []
    pub loading_silent : s.lookup ≡ loading → s.error ≡ ""

  Source-tail :
      (text : String) (asked : List String) (options : List A)
      → Source asked options
      → Source (text ∷ asked) options
  Source-tail text asked options (nothing e) = nothing e
  Source-tail text asked options (answered t m a) = answered t (tail m) a

  unsearched-Sound : (asked : List String) → Sound asked unsearched
  unsearched-Sound asked = record {
    source = nothing refl;
    idle_empty = λ h. (refl, refl);
    failed_empty = λ h. refl;
    loading_silent = λ h. refl;
  }

  timer_fires :
      (asked : List String) (s : Search A) (live : Option String) (requested : Bool)
      → let t : Search A = record s { live = live; requested = requested } in
        Sound asked t → Sound (sent_by t asked) (search_timer t)
  unfolding search_timer
  timer_fires asked s none requested h = h
  timer_fires asked s (some text) true h = h
  timer_fires asked s (some text) false h = record {
    source = Source-tail text asked s.options h.source;
    idle_empty = λ i. ground arith;
    failed_empty = λ f. ground arith;
    loading_silent = λ l. refl;
  }

  -- However the text is edited, and however late the replies come, those of the searches that were
  -- dropped included: the options that a search shows are none, or the server's answer to a text for
  -- which a request was sent; they are none while the search is idle or has failed, and no message is
  -- left while it is idle or loading.
  pub Reach-Sound : {asked : List String} {s : Search A} → Reach asked s → Sound asked s
  unfolding search_effect search_replied
  Reach-Sound start = unsearched-Sound []
  Reach-Sound {asked} (change false text r) = unsearched-Sound asked
  Reach-Sound (change true text r) =
      let h = Reach-Sound r in
      record {
        source = h.source;
        idle_empty = h.idle_empty;
        failed_empty = h.failed_empty;
        loading_silent = h.loading_silent;
      }
  Reach-Sound (timer {asked} {s} r) = timer_fires asked s s.live s.requested (Reach-Sound r)
  Reach-Sound (answer text options m a r) = record {
    source = answered text m a;
    idle_empty = λ i. ground arith;
    failed_empty = λ f. ground arith;
    loading_silent = λ l. ground arith;
  }
  Reach-Sound (stop r) = Reach-Sound r
  Reach-Sound (failure text message m r) = record {
    source = nothing refl;
    idle_empty = λ i. ground arith;
    failed_empty = λ f. refl;
    loading_silent = λ l. ground arith;
  }
