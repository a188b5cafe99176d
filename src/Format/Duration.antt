-- ===== src/Format/Duration.antt =====
-- `formatDuration` of packages/ui/src/api.ts, on thousandths of a second.
pub mod Reading
use modelshelf.Common.{
  ℕ, ◌+◌, ◌/◌, ◌%◌, ltb, ◌==◌, String, Option, none, some, if◌then◌else◌, show, ◌&◌,
}

-- `Math.ceil(seconds)`
unfoldable pub ceil_seconds : ℕ → ℕ
ceil_seconds t = (t + 999) / 1000

unfoldable pub clock_text : ℕ → String
clock_text rounded =
    let days = rounded / 86400 in
    let hours = rounded % 86400 / 3600 in
    let minutes = rounded % 3600 / 60 in
    let remaining_seconds = rounded % 60 in
    if ltb 0 days
    then show days & "d " & show hours & "h"
    else if ltb 0 hours
    then show hours & "h " & show minutes & "m"
    else if ltb 0 minutes
    then show minutes & "m " & show remaining_seconds & "s"
    else show remaining_seconds & "s"

unfoldable pub format_duration : Option ℕ → String
unfolding ceil_seconds clock_text
format_duration none = "Calculating…"
format_duration (some t) = if t == 0 then "Done" else clock_text (ceil_seconds t)
