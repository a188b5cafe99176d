-- ===== src/Guide.antt =====
-- packages/ui/src/pages/IntegrationPage.tsx: the ids of the headings of the guide, and its outline.
-- What the browser knows of Unicode is an argument: the normal form NFKD, the lower case, and
-- which characters are letters or numbers.
pub mod Slug
pub mod Ids
pub mod Blocks
use modelshelf.Common.{
  ℕ, zero, suc, ◌+◌, ◌==◌, Char, code, String, List, [], ◌∷◌, ◌++◌, Bool, true, false, ◌&&◌, ◌||◌,
  not, if◌then◌else◌, truthy, ◌&◌, str_eq, show, Option, none, some,
}
use modelshelf.Common.Scan.{trim}

abbrev pub dash : Char
dash = "-"

-- `.replace(/^-|-$/g, "")`
unfoldable pub strip_leading : String → String
strip_leading String.[] = ""
strip_leading (String.◌∷◌ c s) = if code c == b'-' then s else String.◌∷◌ c s

unfoldable pub strip_trailing : String → String
strip_trailing String.[] = ""
strip_trailing (String.◌∷◌ c s) =
    let rest = strip_trailing s in
    if code c == b'-' && not (truthy s) then "" else String.◌∷◌ c rest

module _ (is_alphanumeric : Char → Bool) where
  -- `.replace(/[^\p{Letter}\p{Number}]+/gu, "-")`; the test says whether such a run goes on.
  unfoldable pub dash_runs : Bool → String → String
  dash_runs inside String.[] = ""
  dash_runs inside (String.◌∷◌ c s) =
      let in_run = dash_runs true s in
      let after = dash_runs false s in
      if is_alphanumeric c
      then String.◌∷◌ c after
      else if inside
      then in_run
      else String.◌∷◌ dash in_run

  -- `headingId`
  unfoldable pub heading_id : (String → String) → (String → String) → String → String
  unfolding dash_runs strip_leading strip_trailing
  heading_id normalize to_lower_case value =
      strip_trailing (strip_leading (dash_runs false (to_lower_case (normalize value))))

-- How often a base was used; a base that is missing was not.
abbrev pub UsedIds : Type 0
UsedIds = String → ℕ

unfoldable pub use_id : String → UsedIds → UsedIds
use_id base used other = if str_eq other base then suc (used base) else used other

unfoldable pub unique_id : String → ℕ → String
unique_id base zero = base
unique_id base (suc n) = base & "-" & show (suc n)

pub record Heading : Type 0 where
  pub text : String
  pub depth : ℕ

pub record Entry : Type 0 where
  pub id : String
  pub title : String

-- `text.replace(/[*_`]/g, "")`
unfoldable pub without_marks : String → String
without_marks String.[] = ""
without_marks (String.◌∷◌ c s) =
    let rest = without_marks s in
    if code c == b'*' || code c == b'_' || code c == b'`' then rest else String.◌∷◌ c rest

pub record Outline : Type 0 where
  pub used_ids : UsedIds
  pub headings : List Entry

module _ (id_of : String → String) where
  -- `renderer.heading`: the id that the heading has, and the outline with its entry.
  unfoldable pub heading : Heading → Outline → String × Outline
  unfolding use_id unique_id without_marks
  heading h o =
      let base = id_of h.text in
      let id = unique_id base (o.used_ids base) in
      (
        id,
        record {
          used_ids = use_id base o.used_ids;
          headings =
              if h.depth == 2
              then o.headings ++ record { id = id; title = without_marks h.text } ∷ []
              else o.headings;
        },
      )

  -- The headings of a document in order: their ids, and the outline.
  unfoldable pub outlined : List Heading → Outline → List String × Outline
  unfolding heading
  outlined [] o = ([], o)
  outlined (h ∷ hs) o = let rest = outlined hs (heading h o).1 in ((heading h o).0 ∷ rest.0, rest.1)

  -- `renderMarkdown`
  unfoldable pub rendered_headings : List Heading → List String × Outline
  unfolding outlined
  rendered_headings hs = outlined hs (record { used_ids = λ base. 0; headings = [] })

-- `IntegrationPage`: the text of the guide and the message of an error; both are empty at first.
pub record GuidePage : Type 0 where
  pub markdown : String
  pub error : String

-- How the request for the guide ends.
pub data GuideReply : Type 0 where
  guide_loaded : String → GuideReply
  guide_refused : ℕ → String → GuideReply
  guide_stopped : GuideReply
  guide_failed : String → GuideReply

abbrev pub refusal_text : ℕ → String → String
refusal_text status detail = "HTTP " & show status & (if truthy detail then ": " & detail else "")

unfoldable pub guide_replied : GuideReply → GuidePage → GuidePage
guide_replied (guide_loaded text) g = record g { markdown = text }
guide_replied (guide_refused status body) g = record g { error = refusal_text status (trim body) }
guide_replied guide_stopped g = g
guide_replied (guide_failed message) g = record g { error = message }

unfoldable pub guide_loads : GuidePage → Bool
guide_loads g = not (truthy g.error) && not (truthy g.markdown)

-- The error message of the page, where there is an error.
unfoldable pub guide_error : GuidePage → Option String
guide_error g =
    if truthy g.error then some ("Could not load integration documentation: " & g.error) else none
