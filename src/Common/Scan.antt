-- ===== src/Common/Scan.antt =====
-- Scanning a text: trimming, splitting at "/", lower case, prefixes, and texts without NUL.
pub mod Trimmed
use text.Mathlib.TextLemmas.{nil-append, cons-append, cons-eq-cons, append_cancel_left}
use mathlib.Core.Path.{ap₂}
use modelshelf.Common.{
  zero, suc, ℕ, nul, ◌+◌, leb, ◌==◌, Char, code, String, List, [], ◌∷◌, Bool, true, false, ◌&&◌,
  ◌||◌, not, ◌≡◌, refl, ◌≢◌, sym, ap, ◌∙◌, if◌then◌else◌, truthy, ◌&◌, arith,
}

-- White space and line ends as `trim` takes them.
unfoldable pub is_space : ℕ → Bool
is_space c =
    (leb 9 c && leb c 13)
    || c == 32
    || c == 160
    || c == 5760
    || (leb 8192 c && leb c 8202)
    || c == 8232
    || c == 8233
    || c == 8239
    || c == 8287
    || c == 12288
    || c == 65279

trim_start : String → String
unfolding is_space
trim_start String.[] = ""
trim_start (String.◌∷◌ c s) =
    let rest = trim_start s in if is_space (code c) then rest else String.◌∷◌ c s

trim_end : String → String
unfolding is_space
trim_end String.[] = ""
trim_end (String.◌∷◌ c s) =
    let rest = trim_end s in
    if is_space (code c) && not (truthy rest) then "" else String.◌∷◌ c rest

-- `text.trim()`
unfoldable pub trim : String → String
unfolding trim_start trim_end
trim s = trim_end (trim_start s)

abbrev pub prepend : Char → List String → List String
prepend c [] = String.◌∷◌ c "" ∷ []
prepend c (part ∷ parts) = String.◌∷◌ c part ∷ parts

-- `text.split("/")`
unfoldable pub split_slash : String → List String
split_slash String.[] = "" ∷ []
split_slash (String.◌∷◌ c s) =
    let rest = split_slash s in if code c == b'/' then "" ∷ rest else prepend c rest

-- `text.startsWith(prefix)`
unfoldable pub begins_with : String → String → Bool
begins_with s String.[] = true
begins_with String.[] (String.◌∷◌ d t) = false
begins_with (String.◌∷◌ c s) (String.◌∷◌ d t) = code c == code d && begins_with s t

-- The letters A to Z in lower case, as the flag `i` of a pattern compares them.
lower_code : ℕ → ℕ
lower_code c = if leb b'A' c && leb c b'Z' then c + 32 else c

starts_lower : String → String → Bool
unfolding lower_code
starts_lower s String.[] = true
starts_lower String.[] (String.◌∷◌ d t) = false
starts_lower (String.◌∷◌ c s) (String.◌∷◌ d t) = lower_code (code c) == code d && starts_lower s t

-- `/^https?:\/\//i.test(text)`
unfoldable pub has_http_scheme : String → Bool
unfolding starts_lower
has_http_scheme s = starts_lower s "http://" || starts_lower s "https://"

abbrev pub NoNul : String → Type 0
NoNul String.[] = Unit
NoNul (String.◌∷◌ c s) = (code c ≢ 0) × NoNul s

NoNul-trim_start : (s : String) → NoNul s → NoNul (trim_start s)
unfolding trim_start
NoNul-trim_start String.[] h = tt
NoNul-trim_start (String.◌∷◌ c s) (p, h) = ground (arith, NoNul-trim_start s h)

NoNul-trim_end : (s : String) → NoNul s → NoNul (trim_end s)
unfolding trim_end
NoNul-trim_end String.[] h = tt
NoNul-trim_end (String.◌∷◌ c s) (p, h) = ground (arith, NoNul-trim_end s h)

pub NoNul-trim : (s : String) → NoNul s → NoNul (trim s)
unfolding trim
NoNul-trim s h = NoNul-trim_end (trim_start s) (NoNul-trim_start s h)

nul-append : (u : String) → "\0" & u ≡ String.◌∷◌ nul u
nul-append u = cons-append nul "" u ∙ ap (String.◌∷◌ nul) (nil-append u)

-- Texts without NUL that are followed by NUL can be told apart.
pub cut_at_nul :
    (s t u v : String) → NoNul s → NoNul t → s & "\0" & u ≡ t & "\0" & v → (s ≡ t) × (u ≡ v)
cut_at_nul String.[] String.[] u v hs ht e =
    (refl, append_cancel_left "\0" u v (simp nil-append at e))
cut_at_nul String.[] (String.◌∷◌ d t) u v hs ht e =
    let heads = sym (nul-append u) ∙ sym (nil-append ("\0" & u)) ∙ e ∙ cons-append d t ("\0" & v) in
    absurd (ht.0 (sym (ap code (cons-eq-cons.0 heads).0)))
cut_at_nul (String.◌∷◌ c s) String.[] u v hs ht e =
    let heads =
      sym (nul-append v) ∙ sym (nil-append ("\0" & v)) ∙ sym e ∙ cons-append c s ("\0" & u) in
    absurd (hs.0 (sym (ap code (cons-eq-cons.0 heads).0)))
cut_at_nul (String.◌∷◌ c s) (String.◌∷◌ d t) u v hs ht e =
    let (same, rest) =
      cons-eq-cons.0 (sym (cons-append c s ("\0" & u)) ∙ e ∙ cons-append d t ("\0" & v)) in
    let (st, uv) = cut_at_nul s t u v hs.1 ht.1 rest in (ap₂ String.◌∷◌ same st, uv)

-- `text.slice(0, n)`
unfoldable pub first : ℕ → String → String
first zero s = ""
first (suc n) String.[] = ""
first (suc n) (String.◌∷◌ c s) = String.◌∷◌ c (first n s)

-- `text.includes(part)`
unfoldable pub includes : String → String → Bool
includes String.[] part = begins_with "" part
includes (String.◌∷◌ c s) part = begins_with (String.◌∷◌ c s) part || includes s part

-- `text.length`, which counts a character beyond the basic plane twice.
unfoldable pub count_units : String → ℕ
count_units String.[] = 0
count_units (String.◌∷◌ c s) = (if leb 65536 (code c) then 2 else 1) + count_units s
