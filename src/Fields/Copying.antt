-- ===== src/Fields/Copying.antt =====
-- `CopyButton` and `writeClipboard`: what the button shows after a copy, and the timers that end it.
use modelshelf.Common.{
  ℕ, suc, ◌-◌, ◌<◌, ◌==◌, String, List, [], ◌∷◌, Bool, true, false, not, Option, none, some, keep,
  any, if◌then◌else◌, ◌≡◌, ◌≢◌, refl, arith, Bool-cases, inl, inr,
}

-- How the copy ends: what is copied, or the message of what is thrown.
pub data Written : Type 0 where
  written : Written
  not_written : String → Written

-- `writeClipboard`: by the clipboard, with its result, where the browser has one, or by a command,
-- which says whether it succeeded.
unfoldable pub write_clipboard : Option Written → Bool → Written
write_clipboard (some result) succeeded = result
write_clipboard none true = written
write_clipboard none false = not_written "clipboard API unavailable"

pub data ButtonState : Type 0 where
  idle success error : ButtonState

-- The state of the button, its timer, the timers that are pending, the number of the next one,
-- and how many copies are under way.
pub record Copier : Type 0 where
  pub state : ButtonState
  pub timer : Option ℕ
  pub pending : List ℕ
  pub next : ℕ
  pub copying : ℕ

abbrev pub unclicked : Copier
unclicked = record { state = idle; timer = none; pending = []; next = 0; copying = 0 }

-- `window.clearTimeout(timer)`; a number that is missing or of a timer that is over does nothing.
abbrev pub clear_timeout : Option ℕ → List ℕ → List ℕ
clear_timeout none pending = pending
clear_timeout (some t) pending = keep (λ p. not (p == t)) pending

-- `copy` up to the copy
unfoldable pub copy_begins : Copier → Copier
copy_begins c = record c { pending = clear_timeout c.timer c.pending; copying = suc c.copying }

abbrev pub state_after : Written → ButtonState
state_after written = success
state_after (not_written message) = error

abbrev pub error_message : Written → Option String
error_message written = none
error_message (not_written message) = some message

-- and from its end on; the second part is the message for `onCopyError`.
unfoldable pub copy_ends : Written → Copier → Copier × Option String
copy_ends w c = (
  record c {
    state = state_after w;
    timer = some c.next;
    pending = c.next ∷ c.pending;
    next = suc c.next;
    copying = c.copying - 1;
  },
  error_message w,
)

-- A timer that is pending ends: `setState("idle")`.
unfoldable pub timer_ends : ℕ → Copier → Copier
timer_ends t c =
    if any (λ p. p == t) c.pending
    then record c { state = idle; pending = clear_timeout (some t) c.pending }
    else c

-- What can happen to a button that is shown.
pub data Reach : Copier → Type 0 where
  at_first : Reach unclicked
  clicked : (c : Copier) → Reach c → Reach (copy_begins c)
  copied : (c : Copier) (w : Written) → 0 < c.copying → Reach c → Reach (copy_ends w c).0
  passed : (c : Copier) (t : ℕ) → Reach c → Reach (timer_ends t c)

abbrev none_left : List ℕ → Bool
none_left [] = true
none_left (t ∷ ts) = false

-- The result of a copy is shown only while a timer is pending that ends it, or a copy is under way that will
-- start one.
pub Passing : Copier → Type 0
Passing c = c.state ≢ idle → none_left c.pending ≡ true → 0 < c.copying

pub Reach-Passing : (c : Copier) → Reach c → Passing c
unfolding Passing copy_begins copy_ends timer_ends
Reach-Passing _ at_first shown nothing = absurd (shown refl)
Reach-Passing _ (clicked c r) shown nothing = omega arith
Reach-Passing _ (copied c w under_way r) shown nothing = ground (arith, nothing)
Reach-Passing _ (passed c t r) shown nothing = elim (Bool-cases (any (λ p. p == t) c.pending)) [
  | inl over ↦ absurd (shown (rw over refl))
  | inr other ↦ rw other (Reach-Passing c r (rw other at shown) (rw other at nothing))
]
