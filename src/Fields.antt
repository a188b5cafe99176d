-- ===== src/Fields.antt =====
-- packages/ui/src/components/ui.tsx and SearchField.tsx: what the shared controls do.
pub mod Select
pub mod Copying
pub mod Texts
