-- ===== src/Artifacts.antt =====
-- packages/ui/src/pages/ArtifactsPage.tsx: the shelf of published artifacts.
pub mod Shell
pub mod Command
pub mod Filters
pub mod Shelf
pub mod Details
pub mod Cards
