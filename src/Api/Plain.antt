-- ===== src/Api/Plain.antt =====
-- The text of an error page: `raw.replace(/<[^>]*>/g, " ").replace(/\s+/g, " ").trim()`.
use modelshelf.Common.{String, Char, code, Bool, true, false, ◌==◌, if◌then◌else◌, ◌&◌}
use modelshelf.Common.Scan.{is_space, trim}

abbrev one : Char → String
one c = String.◌∷◌ c ""

-- Outside a tag, or inside one with what has been read of it.
pub data Place : Type 0 where
  outside : Place
  inside : String → Place

strip_from : Place → String → String
strip_from outside String.[] = ""
strip_from (inside tag) String.[] = tag
strip_from outside (String.◌∷◌ c s) =
    if code c == 60 then strip_from (inside (one c)) s else String.◌∷◌ c (strip_from outside s)
strip_from (inside tag) (String.◌∷◌ c s) =
    if code c == 62 then " " & strip_from outside s else strip_from (inside (tag & one c)) s

-- A tag that is not closed is kept.
unfoldable pub strip_tags : String → String
unfolding strip_from
strip_tags s = strip_from outside s

collapse_after : Bool → String → String
collapse_after spaced String.[] = ""
collapse_after spaced (String.◌∷◌ c s) =
    let after_space = collapse_after true s in
    let after_other = collapse_after false s in
    if is_space (code c)
    then (if spaced then after_space else " " & after_space)
    else String.◌∷◌ c after_other

unfoldable pub collapse : String → String
unfolding collapse_after
collapse s = collapse_after false s

unfoldable pub plain_text : String → String
unfolding strip_tags collapse
plain_text raw = trim (collapse (strip_tags raw))
