-- ===== src/Controls/Confirm.antt =====
-- DeleteConfirm: a dialog with an optional tick box, and the request that it confirms.
use modelshelf.Common.{Bool, true, false, ◌≡◌, if◌then◌else◌, arith}

pub record Dialog : Type 0 where
  pub is_open : Bool
  pub busy : Bool
  pub option_checked : Bool

abbrev pub closed : Dialog
closed = record { is_open = false; busy = false; option_checked = false }

-- `changeOpen`
unfoldable pub change_open : Bool → Dialog → Dialog
change_open next d =
    if d.busy
    then d
    else record d { is_open = next; option_checked = if next then d.option_checked else false }

-- The tick box, which is disabled while the dialog is busy.
unfoldable pub check_option : Bool → Dialog → Dialog
check_option checked d = if d.busy then d else record d { option_checked = checked }

-- `confirm` up to the call of `onConfirm`, with its argument
unfoldable pub confirm_begins : Dialog → Bool × Dialog
confirm_begins d = (d.option_checked, record d { busy = true })

-- `confirm` from the result of `onConfirm` on
unfoldable pub confirm_ends : Bool → Dialog → Dialog
confirm_ends true d = record d { is_open = false; option_checked = false; busy = false }
confirm_ends false d = record d { busy = false }

-- The tick box and the buttons stand in the open dialog; a busy dialog waits for its result.
pub data Reach : Dialog → Type 0 where
  start : Reach closed
  opening : {d : Dialog} → (next : Bool) → Reach d → Reach (change_open next d)
  checking :
      {d : Dialog} → (checked : Bool) → d.is_open ≡ true → Reach d → Reach (check_option checked d)
  confirming :
      {d : Dialog} → d.is_open ≡ true → d.busy ≡ false → Reach d → Reach ((confirm_begins d).1)
  result : {d : Dialog} → (done : Bool) → d.busy ≡ true → Reach d → Reach (confirm_ends done d)

-- A closed dialog has no tick, so that the next confirmation does not ask for the option unless it
-- is ticked again; a dialog that waits for its result stays open and keeps its tick.
pub Reach-closed :
    {d : Dialog}
    → Reach d
    → (d.is_open ≡ false
        → (d.option_checked ≡ false) × ((confirm_begins (change_open true d)).0 ≡ false))
      × (d.busy ≡ true → (d.is_open ≡ true) × ((next : Bool) → change_open next d ≡ d))
unfolding change_open check_option confirm_begins confirm_ends
Reach-closed start = ground arith
Reach-closed (opening next r) = ground (arith, Reach-closed r)
Reach-closed (checking checked o r) = ground (arith, Reach-closed r)
Reach-closed (confirming o b r) = ground (arith, Reach-closed r)
Reach-closed (result true b r) = ground (arith, Reach-closed r)
Reach-closed (result false b r) = ground (arith, Reach-closed r)
