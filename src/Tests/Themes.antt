-- ===== src/Tests/Themes.antt =====
-- The theme after a choice and a change of the system.
use modelshelf.Common.{none, true, false}
use modelshelf.Theme.{dark, system, Browser, Tab, mounted, select, system_changed}

abbrev browser : Browser
browser = record { storage_works = true; stored = none; prefers_dark = false }

abbrev changed : Browser × Tab
changed = system_changed true (select system (select dark (browser, mounted browser)))
