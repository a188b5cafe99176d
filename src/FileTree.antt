-- ===== src/FileTree.antt =====
-- packages/ui/src/components/FileTree.tsx: the tree that is shown for a list of files, its filter
-- and its tick boxes.
pub mod Build
pub mod Show
pub mod Members
pub mod Static
