-- ===== src/Queue/View/Complete.antt =====
-- No layout hides anything of a task.
use modelshelf.Common.{ℕ, ◌+◌, List, [], ◌∷◌, Bool, true, false, if◌then◌else◌, ◌≡◌, arith}
use modelshelf.Task.{TaskStatus}
use modelshelf.Queue.Order.{is_sortable}
use modelshelf.Queue.Cells.{Layout, wide, medium, compact}
use modelshelf.Queue.View.{
  Piece, queue_piece, source_piece, status_piece, revision_piece, progress_piece, updated_piece,
  actions_piece, is_terminal, row_cells, source_cell,
}

abbrev pub same_piece : Piece → Piece → Bool
same_piece queue_piece queue_piece = true
same_piece source_piece source_piece = true
same_piece status_piece status_piece = true
same_piece revision_piece revision_piece = true
same_piece progress_piece progress_piece = true
same_piece updated_piece updated_piece = true
same_piece actions_piece actions_piece = true
same_piece _ _ = false

abbrev pub count : Piece → List Piece → ℕ
count piece [] = 0
count piece (p ∷ ps) = (if same_piece p piece then 1 else 0) + count piece ps

-- Whether a piece is meant for a task of the status
abbrev pub is_due : TaskStatus → Piece → Bool
is_due status queue_piece = is_sortable status
is_due status actions_piece = is_terminal status
is_due status _ = true

-- In every layout the row of a task shows its source, its status, its revision, its progress and the
-- time of its update exactly once; the question before its deletion exactly once if the task has
-- ended, and else not at all; and its place in the queue with the grip exactly once if it can be
-- moved, and else not at all.
pub row_cells-count :
    (layout : Layout) (status : TaskStatus) (piece : Piece)
    → count piece (row_cells layout status) ≡ (if is_due status piece then 1 else 0)
unfolding row_cells source_cell is_terminal
row_cells-count wide status piece = ground arith
row_cells-count medium status piece = ground arith
row_cells-count compact status piece = ground arith
