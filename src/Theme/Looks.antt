-- ===== src/Theme/Looks.antt =====
-- The page looks as it should.
use modelshelf.Common.{String, Bool, Option}
use modelshelf.Theme.{
  ThemePreference, Browser, Tab, mounted, select, system_changed, storage_changed,
}

pub data Reach : Browser → Tab → Type 0 where
  start : (b : Browser) → Reach b (mounted b)
  selecting :
      {b : Browser} {t : Tab}
      → (p : ThemePreference) → Reach b t
      → Reach (select p (b, t)).0 (select p (b, t)).1
  system_changing :
      {b : Browser} {t : Tab}
      → (d : Bool) → Reach b t
      → Reach (system_changed d (b, t)).0 (system_changed d (b, t)).1
  storage_changing :
      {b : Browser} {t : Tab}
      → (s : Option String) → Reach b t
      → Reach (storage_changed s (b, t)).0 (storage_changed s (b, t)).1
