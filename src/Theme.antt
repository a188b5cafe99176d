-- ===== src/Theme.antt =====
-- packages/ui/src/theme.ts and components/ThemePicker.tsx: the theme that the user prefers.
pub mod Looks
use modelshelf.Common.{String, Bool, true, false, Option, none, some, str_eq, ◌||◌, if◌then◌else◌}

pub data ThemePreference : Type 0 where
  light dark system : ThemePreference

abbrev pub theme_value : ThemePreference → String
theme_value light = "light"
theme_value dark = "dark"
theme_value system = "system"

abbrev pub stored_preference : Option String → ThemePreference
stored_preference none = system
stored_preference (some stored) =
    if str_eq stored "light" then light else if str_eq stored "dark" then dark else system

-- What the browser keeps under `themeStorageKey`, unless storage is disabled, and what the system
-- prefers.
pub record Browser : Type 0 where
  pub storage_works : Bool
  pub stored : Option String
  pub prefers_dark : Bool

unfoldable pub read_theme_preference : Browser → ThemePreference
read_theme_preference b = if b.storage_works then stored_preference b.stored else system

pub record Look : Type 0 where
  pub dark_class : Bool
  pub theme : String
  pub theme_color : String

abbrev pub resolves_dark : Bool → ThemePreference → Bool
resolves_dark prefers_dark light = false
resolves_dark prefers_dark dark = true
resolves_dark prefers_dark system = prefers_dark

-- `applyTheme`
unfoldable pub apply_theme : Browser → ThemePreference → Look
apply_theme b preference =
    if resolves_dark b.prefers_dark preference
    then record { dark_class = true; theme = "dark"; theme_color = "#111614" }
    else record { dark_class = false; theme = "light"; theme_color = "#fcfdfc" }

pub record Tab : Type 0 where
  pub preference : ThemePreference
  pub look : Look

-- The provider is mounted: the state is read, and the effect applies it.
unfoldable pub mounted : Browser → Tab
mounted b = let p = read_theme_preference b in record { preference = p; look = apply_theme b p }

-- `select`
unfoldable pub select : ThemePreference → Browser × Tab → Browser × Tab
select next (b, tab) = (
  if b.storage_works then record b { stored = some (theme_value next) } else b,
  record { preference = next; look = apply_theme b next },
)

-- The system's preference changes, and `update` runs.
unfoldable pub system_changed : Bool → Browser × Tab → Browser × Tab
system_changed prefers_dark (b, tab) =
    let now = record b { prefers_dark = prefers_dark } in
    (now, record tab { look = apply_theme now tab.preference })

-- Another tab writes what is stored, and `sync` runs.
unfoldable pub storage_changed : Option String → Browser × Tab → Browser × Tab
storage_changed stored (b, tab) = let now = record b { stored = stored } in (now, mounted now)
