-- ===== src/Tests/Cards.antt =====
-- The cards and the dialog of the shelf on concrete inputs.
use modelshelf.Common.{true, false, none, some, is_some, show, ◌≡◌, refl, arith}
use modelshelf.Common.Scan.{trim}
use modelshelf.Queue.Page.{ok}
use modelshelf.Artifacts.Shelf.{artifact_deleted}
use modelshelf.Artifacts.Cards.{below, card}
use modelshelf.Artifacts.Cards.Emptied.{artifact_deleted-below}
use modelshelf.Artifacts.Details.{or_null, shown_detail, alias_begins, alias_replied}
use modelshelf.Artifacts.Details.View.{save_disabled, heading_of}
use modelshelf.Artifacts.Details.Saving.{save_disabled-alias_replied}
use modelshelf.Tests.Samples.{no_order, same_text}
use modelshelf.Tests.Shelves.{artifact, shelf, detail, details, named}

artifact_deleted-below_example :
    let after = below true "" "" (artifact_deleted "a" (ok tt) shelf).0 in
    (is_some after.empty ≡ true) × (after.load_more ≡ some false) × (after.first_loading ≡ false)
artifact_deleted-below_example = artifact_deleted-below true "" "" "a" tt shelf refl

card_of_named : (card same_text show no_order same_text false "q=x" none named).title ≡ "x"
unfolding card
card_of_named = refl

headings : heading_of (some (record detail { summary = named })) ≡ ("x", some artifact.name)
unfolding heading_of
headings = refl

is_shown : shown_detail details ≡ some detail
unfolding shown_detail
is_shown = refl

asked : named.alias ≡ or_null (trim details.alias_input)
unfolding trim
asked = refl

save_disabled-alias_replied_example :
    let (request, waiting) = alias_begins details in
    let after = (alias_replied (ok named) (waiting, shelf)).0 in
    (save_disabled details detail ≡ true
      → request ≡ some (record { artifact_id = "a"; alias = none }))
    × (request ≡ some (record { artifact_id = "a"; alias = none })
        → save_disabled details detail ≡ true)
    × (shown_detail after ≡ some (record detail { summary = named }))
    × (save_disabled after (record detail { summary = named }) ≡ true)
save_disabled-alias_replied_example =
    save_disabled-alias_replied details shelf detail named is_shown (λ e. ground (arith, e)) refl
      asked
