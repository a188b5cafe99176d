-- ===== src/Controls.antt =====
-- packages/ui/src/components/DeleteConfirm.tsx, ScheduleControl.tsx and ResumeControl.tsx: the small
-- dialogs that ask before an action.
pub mod Confirm
pub mod Dates
pub mod Future
