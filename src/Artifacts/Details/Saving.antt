-- ===== src/Artifacts/Details/Saving.antt =====
-- When the alias of an artifact can be saved.
use modelshelf.Common.{
  String, true, Option, none, some, get_or, str_eq, ◌≡◌, ◌≢◌, refl, sym, subst, ap, ◌∙◌, arith,
  eq_iff, eq_refl,
}
use modelshelf.Common.Scan.{trim}
use modelshelf.Common.Scan.Trimmed.{trim_twice}
use modelshelf.Queue.Page.{ok}
use modelshelf.Artifacts.Shelf.{Artifact, Shelf}
use modelshelf.Artifacts.Details.{
  ArtifactDetail, Details, shown_detail, or_null, alias_begins, alias_replied,
}
use modelshelf.Artifacts.Details.View.{save_disabled}

or_null_get : (t : String) → get_or (or_null t) "" ≡ t
or_null_get String.[] = refl
or_null_get (String.◌∷◌ c s) = refl

or_null-alias :
    (t : String) (alias : Option String)
    → ◌≢◌ {A = Option String} alias (some "")
    → str_eq t (get_or alias "") ≡ true
    → or_null t ≡ alias
or_null-alias t none real same =
    subst (λ x. ◌≡◌ {A = Option String} (or_null x) none) (sym ((eq_iff t "").0 same)) refl
or_null-alias t (some String.[]) real same = absurd (real refl)
or_null-alias t (some (String.◌∷◌ c s)) real same =
    subst (λ x. ◌≡◌ {A = Option String} (or_null x) (some (String.◌∷◌ c s)))
      (sym ((eq_iff t (String.◌∷◌ c s)).0 same)) refl

alias-or_null :
    (t : String) (alias : Option String) → or_null t ≡ alias → str_eq t (get_or alias "") ≡ true
alias-or_null t alias e =
    subst (λ a. str_eq t (get_or a "") ≡ true) e (rw (or_null_get t) (eq_refl t))

-- The button that saves the alias of the artifact that is shown, which is not empty if there is one, is
-- disabled exactly if the request would ask for the alias that the artifact has; and once the server
-- has answered for this artifact with the alias that was asked for, the button is disabled.
pub save_disabled-alias_replied :
    (d : Details) (shelf : Shelf) (detail : ArtifactDetail) (summary : Artifact)
    → shown_detail d ≡ some detail
    → ◌≢◌ {A = Option String} detail.summary.alias (some "")
    → summary.artifact_id ≡ detail.summary.artifact_id
    → summary.alias ≡ or_null (trim d.alias_input)
    → let (request, waiting) = alias_begins d in
      let after = (alias_replied (ok summary) (waiting, shelf)).0 in
      (save_disabled d detail ≡ true
        → request
          ≡ some
              (record { artifact_id = detail.summary.artifact_id; alias = detail.summary.alias }))
      × (request
            ≡ some
                (record { artifact_id = detail.summary.artifact_id; alias = detail.summary.alias })
          → save_disabled d detail ≡ true)
      × (shown_detail after ≡ some (record detail { summary = summary }))
      × (save_disabled after (record detail { summary = summary }) ≡ true)
unfolding save_disabled shown_detail alias_begins alias_replied
save_disabled-alias_replied d shelf detail summary shown real same asked =
    let forth = or_null-alias (trim d.alias_input) detail.summary.alias real in
    let back = alias-or_null (trim d.alias_input) detail.summary.alias in
    let input : get_or summary.alias "" ≡ trim d.alias_input =
      ap (λ a. get_or a "") asked ∙ or_null_get (trim d.alias_input) in
    let settled : str_eq (trim (get_or summary.alias "")) (get_or summary.alias "") ≡ true =
      rw (input, trim_twice d.alias_input) (eq_refl (trim d.alias_input)) in
    ground (arith, forth, back, settled, shown, same)
