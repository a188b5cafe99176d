-- ===== src/Fields/Texts.antt =====
-- `statusText`, `StatusBadge`, `ProgressBar` and the choices of `SearchField`.
use modelshelf.Common.{
  ℕ, min, String, code, List, ◌∷◌, Bool, true, false, ◌&&◌, not, ◌==◌, Option, none, some, get_or,
  if◌then◌else◌, any, str_eq, truthy, ◌&◌,
}
use modelshelf.Common.Scan.{first}
use modelshelf.Task.{
  TaskStatus, scheduled, queued, resolving, awaiting_confirmation, downloading, verifying,
  publishing, paused, cancelled, completed, failed,
}

-- `status.replaceAll("_", " ")`
unfoldable pub spaced : String → String
spaced String.[] = ""
spaced (String.◌∷◌ c s) =
    let rest = spaced s in if code c == b'_' then String.◌∷◌ " " rest else String.◌∷◌ c rest

-- `text.slice(1)`, where the first character is one UTF-16 unit, as in all names of a status
abbrev pub after_first : String → String
after_first String.[] = ""
after_first (String.◌∷◌ c s) = s

-- `statusText`; `toUpperCase` is the browser's.
unfoldable pub status_text : (String → String) → String → String
unfolding spaced
status_text to_upper_case status =
    to_upper_case (first 1 (spaced status)) & after_first (spaced status)

pub data BadgeStatus : Type 0 where
  success_badge danger_badge neutral_badge warning_badge info_badge loading_badge : BadgeStatus

-- `statusTone`
unfoldable pub status_tone : TaskStatus → BadgeStatus
status_tone completed = success_badge
status_tone failed = danger_badge
status_tone cancelled = neutral_badge
status_tone paused = warning_badge
status_tone awaiting_confirmation = warning_badge
status_tone scheduled = info_badge
status_tone queued = neutral_badge
status_tone resolving = loading_badge
status_tone downloading = loading_badge
status_tone verifying = loading_badge
status_tone publishing = loading_badge

-- `StatusBadge`: its label, or else the status.
unfoldable pub badge_text : (String → String) → String → Option String → String
unfolding status_text
badge_text to_upper_case status label = get_or label (status_text to_upper_case status)

-- `ProgressBar`: the value for a reader, and the width in hundredths; a negative percentage does not occur.
unfoldable pub value_now : Option ℕ → Bool → Option ℕ
value_now percent indeterminate = if indeterminate then none else percent

unfoldable pub bar_width : Option ℕ → Bool → Option ℕ
bar_width percent indeterminate = if indeterminate then none else some (min 100 (get_or percent 0))

pub record SearchOption : Type 0 where
  pub value : String
  pub description : Option String

-- `choices`: a value that is no option comes first.
unfoldable pub choices : String → List SearchOption → List SearchOption
choices value options =
    if truthy value && not (any (λ o. str_eq o.value value) options)
    then record { value = value; description = some "Use this exact value" } ∷ options
    else options

-- The state of `SearchField`, after a change of the text and after the list opens or closes.
abbrev pub SearchFieldState : Type 0
SearchFieldState = Bool

unfoldable pub typed : String → SearchFieldState → String × SearchFieldState
typed text filters = (text, true)

unfoldable pub list_toggled : SearchFieldState → SearchFieldState
list_toggled filters = false

-- `filter`: whether the combobox shows all choices, and does not filter them by the text.
unfoldable pub shows_all : Bool → SearchFieldState → Bool
shows_all remote filters = if remote then true else not filters
