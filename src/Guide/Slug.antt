-- ===== src/Guide/Slug.antt =====
-- What the id of a heading is made of.
use text.Mathlib.TextLemmas.{nil-append, cons-append}
use modelshelf.Common.{
  ◌==◌, Char, code, String, List, [], ◌∷◌, Bool, true, false, not, if◌then◌else◌, truthy, ◌&◌, join,
  keep, ◌≡◌, refl, Bool-cases, inl, inr, ap, ◌∙◌, sym,
}
use modelshelf.Common.Scan.{prepend}
use modelshelf.Guide.{dash, strip_leading, strip_trailing, dash_runs, heading_id}

join-cons :
    (c : Char) (h : String) (ws : List String)
    → join "-" (String.◌∷◌ c h ∷ ws) ≡ String.◌∷◌ c (join "-" (h ∷ ws))
join-cons c h [] = refl
join-cons c h (w ∷ ws) = cons-append c h ("-" & join "-" (w ∷ ws))

abbrev filled : List String → Bool
filled [] = false
filled (w ∷ ws) = true

join-nil :
    (ws : List String)
    → join "-" ("" ∷ ws) ≡ (if filled ws then String.◌∷◌ dash (join "-" ws) else "")
join-nil [] = refl
join-nil (w ∷ ws) =
    let t = join "-" (w ∷ ws) in
    nil-append ("-" & t) ∙ cons-append dash "" t ∙ ap (String.◌∷◌ dash) (nil-append t)

if_not : (b : Bool) (t : String) → (if not b then "" else t) ≡ (if b then t else "")
if_not true t = refl
if_not false t = refl

module _ (is_alphanumeric : Char → Bool) where
  -- The text cut at every character that is no letter and no number.
  abbrev pub pieces : String → List String
  pieces String.[] = "" ∷ []
  pieces (String.◌∷◌ c s) =
      let rest = pieces s in if is_alphanumeric c then prepend c rest else "" ∷ rest

  abbrev pub words : String → List String
  words s = keep truthy (pieces s)

  abbrev mid_word : List String → String
  mid_word [] = ""
  mid_word (h ∷ t) = join "-" (h ∷ keep truthy t)

  mid_word-prepend :
      (c : Char) (ps : List String) → mid_word (prepend c ps) ≡ String.◌∷◌ c (mid_word ps)
  mid_word-prepend c [] = refl
  mid_word-prepend c (h ∷ t) = join-cons c h (keep truthy t)

  join-prepend :
      (c : Char) (ps : List String)
      → join "-" (keep truthy (prepend c ps)) ≡ String.◌∷◌ c (mid_word ps)
  join-prepend c [] = refl
  join-prepend c (h ∷ t) = join-cons c h (keep truthy t)

  filled-prepend : (c : Char) (ps : List String) → filled (keep truthy (prepend c ps)) ≡ true
  filled-prepend c [] = refl
  filled-prepend c (h ∷ t) = refl

  truthy-dash_runs : (s : String) → truthy (dash_runs is_alphanumeric true s) ≡ filled (words s)
  unfolding dash_runs
  truthy-dash_runs String.[] = refl
  truthy-dash_runs (String.◌∷◌ c s) = elim (Bool-cases (is_alphanumeric c)) [
    | inl e ↦ rw e (sym (filled-prepend c (pieces s)))
    | inr e ↦ rw e (truthy-dash_runs s)
  ]

  module _ (separates : (c : Char) → is_alphanumeric c ≡ true → (code c == b'-') ≡ false) where
    strip_trailing-dash_runs :
        (s : String)
        → (strip_trailing (dash_runs is_alphanumeric false s) ≡ mid_word (pieces s))
          × (strip_trailing (dash_runs is_alphanumeric true s) ≡ join "-" (words s))
    unfolding dash_runs strip_trailing
    strip_trailing-dash_runs String.[] = (refl, refl)
    strip_trailing-dash_runs (String.◌∷◌ c s) =
        let (mid, start) = strip_trailing-dash_runs s in
        elim (Bool-cases (is_alphanumeric c)) [
          | inl e ↦
              rw (e, separates c e)
                (
                  ap (String.◌∷◌ c) mid ∙ sym (mid_word-prepend c (pieces s)),
                  ap (String.◌∷◌ c) mid ∙ sym (join-prepend c (pieces s)),
                )
          | inr e ↦
              rw (e, join-nil (words s), start, truthy-dash_runs s)
                (if_not (filled (words s)) _, refl)
        ]

    stripped :
        (s : String)
        → strip_trailing (strip_leading (dash_runs is_alphanumeric false s)) ≡ join "-" (words s)
    unfolding dash_runs strip_leading strip_trailing
    stripped String.[] = refl
    stripped (String.◌∷◌ c s) = elim (Bool-cases (is_alphanumeric c)) [
      | inl e ↦
          rw (e, separates c e)
            (rw (separates c e)
              (ap (String.◌∷◌ c) (strip_trailing-dash_runs s).0 ∙ sym (join-prepend c (pieces s))))
      | inr e ↦ rw e (strip_trailing-dash_runs s).1
    ]

    -- The id of a heading is made of its words, the longest runs of letters and numbers in its
    -- normal form in lower case, with one "-" between them, if "-" is no letter and no number.
    pub heading_id-join :
        (normalize to_lower_case : String → String) (value : String)
        → heading_id is_alphanumeric normalize to_lower_case value
          ≡ join "-" (words (to_lower_case (normalize value)))
    unfolding heading_id
    heading_id-join normalize to_lower_case value = stripped (to_lower_case (normalize value))
