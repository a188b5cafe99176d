-- ===== src/Artifacts/Shell.antt =====
-- The quoting of an argument of the command that the page shows, and a shell that reads it.
pub mod Reading
use modelshelf.Common.{
  ℕ, ◌==◌, leb, String, Char, code, Bool, true, false, ◌&&◌, ◌||◌, Option, none, some,
  if◌then◌else◌, truthy, ◌&◌,
}
use Prim.Native.String

-- The class `[a-zA-Z0-9_@%+=:,./-]`: "%", "+" to ":", "=", "@" to "Z", "_" and "a" to "z".
abbrev pub is_plain : ℕ → Bool
is_plain c =
    c == 37
    || (leb 43 c && leb c 58)
    || c == 61
    || (leb 64 c && leb c 90)
    || c == 95
    || (leb 97 c && leb c 122)

unfoldable pub all_plain : String → Bool
all_plain String.[] = true
all_plain (String.◌∷◌ c s) = is_plain (code c) && all_plain s

abbrev pub quote : Char
quote = "'"

abbrev pub double_quote : Char
double_quote = "\""

-- `value.replaceAll("'", …)`: a quote ends the quoted part, stands in double quotes, and begins the
-- next quoted part.
unfoldable pub escape : String → String
escape String.[] = ""
escape (String.◌∷◌ c s) =
    let rest = escape s in
    let ended = String.◌∷◌ c (String.◌∷◌ double_quote (String.◌∷◌ quote rest)) in
    if code c == 39 then String.◌∷◌ quote (String.◌∷◌ double_quote ended) else String.◌∷◌ c rest

unfoldable pub shell_argument : String → String
unfolding all_plain escape
shell_argument value =
    if truthy value && all_plain value then value else String.◌∷◌ quote (escape value & "'")

-- The parts of a word for a POSIX shell.
pub data Mode : Type 0 where
  bare in_single in_double : Mode

abbrev pub and_then : Char → Option String → Option String
and_then c none = none
and_then c (some s) = some (String.◌∷◌ c s)

-- What is special in double quotes: "!", "$", "\" and "`".
abbrev pub is_special : ℕ → Bool
is_special c = c == 33 || c == 36 || c == 92 || c == 96

-- The word that a shell reads of a text which is a single word without expansions; a bare character
-- that is not plain may have a meaning of its own and is refused.
unfoldable pub read_word : Mode → String → Option String
read_word bare String.[] = some ""
read_word in_single String.[] = none
read_word in_double String.[] = none
read_word bare (String.◌∷◌ c s) =
    let quoted = read_word in_single s in
    let double = read_word in_double s in
    let more = read_word bare s in
    if code c == 39
    then quoted
    else if code c == 34
    then double
    else if is_plain (code c)
    then and_then c more
    else none
read_word in_single (String.◌∷◌ c s) =
    let more = read_word in_single s in
    let after = read_word bare s in if code c == 39 then after else and_then c more
read_word in_double (String.◌∷◌ c s) =
    let more = read_word in_double s in
    let after = read_word bare s in
    if code c == 34 then after else if is_special (code c) then none else and_then c more
