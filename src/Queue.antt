-- ===== src/Queue.antt =====
-- packages/ui/src/pages/TasksPage.tsx: the list of downloads, its filters, and its order.
pub mod Filters
pub mod Page
pub mod Order
pub mod Reorder
pub mod Cells
pub mod View
