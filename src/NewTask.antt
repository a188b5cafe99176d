-- ===== src/NewTask.antt =====
-- packages/ui/src/pages/NewTaskPage.tsx: the form of a new download, its lookups at the provider,
-- the review of the estimate and the choice of files.
pub mod Form
pub mod Estimate
pub mod Current
pub mod Aborts
pub mod Review
pub mod Submit
pub mod Lookup
pub mod Panel
pub mod Routing
pub mod Choices
pub mod Search
pub mod Help
