-- ===== src/Tests/Guides.antt =====
-- The guide on concrete inputs.
use modelshelf.Common.{
  Char, Bool, Without, show, code, leb, ◌==◌, [], ◌∷◌, true, false, ◌&&◌, ◌≡◌, refl, arith,
}
use modelshelf.Common.Scan.{trim, is_space}
use modelshelf.Guide.{Heading, heading_id, rendered_headings}
use modelshelf.Guide.Slug.{heading_id-join}
use modelshelf.Common.{map, some, none, String, List}
use modelshelf.Guide.Blocks.{
  CodeToken, bash, plain_text, own, language_alias, first_word, requested_language, found_language,
  codes_rendered, block_of, portals, zip, count_from, portals-codes_rendered,
}
use modelshelf.Guide.Ids.{
  Apart, Apart-Without, Distinct, bases_of, entry_ids, rendered_headings-Distinct,
}

abbrev letter : Char → Bool
letter c = leb b'a' (code c) && leb (code c) b'z'

separates : (c : Char) → letter c ≡ true → (code c == b'-') ≡ false
separates c h = ground arith

heading_id-join_example : heading_id letter (λ s. s) (λ s. s) "(get a) model!" ≡ "get-a-model"
unfolding heading_id
heading_id-join_example = heading_id-join letter separates (λ s. s) (λ s. s) "(get a) model!"

abbrev setup : Heading
setup = record { text = "setup"; depth = 2 }

abbrev usage : Heading
usage = record { text = "usage"; depth = 3 }

dashless : Without b'-' "setup"
dashless = (omega arith, (omega arith, (omega arith, (omega arith, (omega arith, tt)))))

dashless_usage : Without b'-' "usage"
dashless_usage = (omega arith, (omega arith, (omega arith, (omega arith, (omega arith, tt)))))

apart : Apart (bases_of (λ t. t) (setup ∷ usage ∷ setup ∷ []))
apart =
    Apart-Without ("setup" ∷ "usage" ∷ "setup" ∷ []) (dashless, (dashless_usage, (dashless, tt)))

rendered_headings-Distinct_example :
    Distinct ("setup" ∷ "usage" ∷ "setup-1" ∷ [])
    × (entry_ids (rendered_headings (λ t. t) (setup ∷ usage ∷ setup ∷ [])).1
        ≡ "setup" ∷ "setup-1" ∷ [])
unfolding rendered_headings show
rendered_headings-Distinct_example =
    rendered_headings-Distinct (λ t. t) (setup ∷ usage ∷ setup ∷ []) apart

abbrev numbered : Heading
numbered = record { text = "setup-1"; depth = 2 }

abbrev nothing_inherited : String → Bool
nothing_inherited name = false

abbrev tokens : List CodeToken
tokens = record { text = "ls"; lang = some " sh title" } ∷ record { text = "x"; lang = none } ∷ []

languages :
    map (λ b. b.language) (map (block_of (λ t. t) nothing_inherited) tokens)
    ≡ (own bash ∷ own plain_text ∷ [])
unfolding requested_language found_language language_alias first_word trim is_space
languages = refl

portals-codes_rendered_example :
    let (indices, blocks) = codes_rendered (λ t. t) nothing_inherited tokens [] in
    (portals 0 indices blocks
      ≡ zip (count_from 0 tokens) (map (block_of (λ t. t) nothing_inherited) tokens))
    × (portals 0 (7 ∷ indices) blocks
        ≡ zip (7 ∷ count_from 0 tokens) (map (block_of (λ t. t) nothing_inherited) tokens))
portals-codes_rendered_example = portals-codes_rendered (λ t. t) nothing_inherited tokens 7
