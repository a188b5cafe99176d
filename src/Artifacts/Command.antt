-- ===== src/Artifacts/Command.antt =====
-- The command and the configuration that the page shows for an artifact, and a shell that reads a
-- line.
pub mod Line
use modelshelf.Common.{
  ℕ, ◌==◌, leb, String, Char, code, List, [], ◌∷◌, ◌++◌, Bool, true, false, ◌&&◌, ◌||◌, not, Option,
  none, some, get_or, if◌then◌else◌, truthy, ◌&◌, join,
}
use modelshelf.Task.{Provider}
use modelshelf.Queue.Filters.{provider_value}
use modelshelf.Guide.{dash_runs}
use modelshelf.Artifacts.Shelf.{Artifact}
use modelshelf.Artifacts.Shell.{
  Mode, bare, in_single, in_double, is_plain, is_special, shell_argument,
}

-- The class `[a-zA-Z0-9._-]`
abbrev pub in_alias : Char → Bool
in_alias c =
    leb b'a' (code c) && leb (code c) b'z'
    || leb b'A' (code c) && leb (code c) b'Z'
    || leb b'0' (code c) && leb (code c) b'9'
    || code c == b'.'
    || code c == b'_'
    || code c == b'-'

-- `.replace(/^-+|-+$/g, "")`
unfoldable pub strip_dashes_before : String → String
strip_dashes_before String.[] = ""
strip_dashes_before (String.◌∷◌ c s) =
    let rest = strip_dashes_before s in if code c == b'-' then rest else String.◌∷◌ c s

unfoldable pub strip_dashes_after : String → String
strip_dashes_after String.[] = ""
strip_dashes_after (String.◌∷◌ c s) =
    let rest = strip_dashes_after s in
    if code c == b'-' && not (truthy rest) then "" else String.◌∷◌ c rest

abbrev pub or_model : String → String
or_model slug = if truthy slug then slug else "model"

abbrev pub id_or_alias : Artifact → String
id_or_alias item = get_or item.alias item.artifact_id

-- `normalize("NFKD")` is the browser's.
module _ (normalize : String → String) where
  -- `artifactAlias`
  unfoldable pub artifact_alias : Artifact → String
  unfolding dash_runs strip_dashes_before strip_dashes_after
  artifact_alias item = get_or item.alias (
      or_model
        (strip_dashes_after (strip_dashes_before (dash_runs in_alias false (normalize item.name)))))

  -- `addCommand`
  unfoldable pub add_command : Artifact → String
  unfolding shell_argument artifact_alias provider_value
  add_command item =
      let command =
        "modelshelf add"
        ∷ shell_argument (provider_value item.provider)
        ∷ shell_argument item.source_id
        ∷ "--revision"
        ∷ shell_argument item.resolved_revision
        ∷ "--artifact"
        ∷ shell_argument (id_or_alias item)
        ∷ [] in
      join " " (command ++ "--alias" ∷ shell_argument (artifact_alias item) ∷ [])

  -- `modelConfig`; `JSON.stringify` is the browser's.
  unfoldable pub model_config : (String → String) → Artifact → String
  unfolding artifact_alias provider_value
  model_config stringify item = join "\n" (
      ("alias: " & stringify (artifact_alias item))
      ∷ ("provider: " & stringify (provider_value item.provider))
      ∷ ("id: " & stringify item.source_id)
      ∷ ("revision: " & stringify item.resolved_revision)
      ∷ ("artifact: " & stringify (id_or_alias item))
      ∷ ""
      ∷ [])

-- A text that begins with a word
pub begins_word : String → Bool
begins_word String.[] = false
begins_word (String.◌∷◌ c s) = not (code c == 32)

abbrev pub onto_first : Char → Option (List String) → Option (List String)
onto_first c none = none
onto_first c (some []) = none
onto_first c (some (w ∷ ws)) = some (String.◌∷◌ c w ∷ ws)

abbrev pub after_space : Bool → Option (List String) → Option (List String)
after_space true (some ws) = some ("" ∷ ws)
after_space _ _ = none

-- The words that a shell reads of a line whose words are separated by one space each, from within
-- its first word on.
unfoldable pub read_line : Mode → String → Option (List String)
unfolding begins_word
read_line bare String.[] = some ("" ∷ [])
read_line in_single String.[] = none
read_line in_double String.[] = none
read_line bare (String.◌∷◌ c s) =
    let quoted = read_line in_single s in
    let double = read_line in_double s in
    let more = read_line bare s in
    if code c == 39
    then quoted
    else if code c == 34
    then double
    else if code c == 32
    then after_space (begins_word s) more
    else if is_plain (code c)
    then onto_first c more
    else none
read_line in_single (String.◌∷◌ c s) =
    let more = read_line in_single s in
    let after = read_line bare s in if code c == 39 then after else onto_first c more
read_line in_double (String.◌∷◌ c s) =
    let more = read_line in_double s in
    let after = read_line bare s in
    if code c == 34 then after else if is_special (code c) then none else onto_first c more
