-- ===== src/Tests.antt =====
-- Runs on concrete inputs, and the theorems applied to them.
mod Samples
mod Formats
mod Steps
mod Downloads
mod Forms
mod Dialogs
mod Requests
mod Reviews
mod Shelves
mod Sources
mod Themes
mod Trees
mod Sessions
mod Submissions
mod Guides
mod Controls
mod Details
mod Selections
mod Choices
mod Lookups
mod Panels
mod Cards
mod Routings
mod Orders
