-- ===== src/Fields/Select.antt =====
-- `SelectField`: the keys of a list of options.
pub mod Cycle
use modelshelf.Common.{
  ℕ, ◌+◌, ◌-◌, ◌%◌, ltb, Bool, true, false, Option, none, some, get_or, if◌then◌else◌,
}

pub data Key : Type 0 where
  arrow_down arrow_up home end_key escape tab other_key : Key

-- Where the focus goes.
pub data Focus : Type 0 where
  kept on_trigger : Focus
  on_option : ℕ → Focus

-- What a key does: whether the browser's own action and the handlers further up are kept from it, whether
-- the list is open, and where the focus goes.
pub record KeyResponse : Type 0 where
  pub prevented : Bool
  pub stopped : Bool
  pub is_open : Bool
  pub focus : Focus

abbrev pub step_from : Key → ℕ → ℕ → ℕ
step_from arrow_down n current = (current + 1 + n) % n
step_from key n current = (current + n - 1) % n

-- `index` for `n` options, of which one may be focused and one may be selected. Without options
-- the code counts from -1 on; there is then no option to focus either way.
abbrev pub target_index : Key → ℕ → Option ℕ → Option ℕ → ℕ
target_index home n current selected = 0
target_index end_key n current selected = n - 1
target_index key n (some current) selected = step_from key n current
target_index key n none selected = get_or selected 0

-- `items[index]?.focus()`
abbrev pub focus_of : ℕ → ℕ → Focus
focus_of n index = if ltb index n then on_option index else kept

unfoldable pub moved : Key → ℕ → Option ℕ → Option ℕ → KeyResponse
moved key n current selected = record {
  prevented = true;
  stopped = false;
  is_open = true;
  focus = focus_of n (target_index key n current selected);
}

abbrev pub ignored : Bool → KeyResponse
ignored is_open = record { prevented = false; stopped = false; is_open = is_open; focus = kept }

-- `onKeyDownCapture`
unfoldable pub key_pressed : Key → ℕ → Option ℕ → Option ℕ → Bool → KeyResponse
unfolding moved
key_pressed escape n current selected true = record {
  prevented = true;
  stopped = true;
  is_open = false;
  focus = on_trigger;
}
key_pressed tab n current selected true = record {
  prevented = false;
  stopped = false;
  is_open = false;
  focus = on_trigger;
}
key_pressed escape n current selected false = ignored false
key_pressed tab n current selected false = ignored false
key_pressed other_key n current selected is_open = ignored is_open
key_pressed key n current selected is_open = moved key n current selected

-- `onBlurCapture`: the test says whether the focus stays within the field.
unfoldable pub blurred : Bool → Bool → Bool
blurred within is_open = if within then is_open else false

-- The keys are pressed one after the other; an option that takes the focus gets the next one.
abbrev pub focused : Focus → Option ℕ → Option ℕ
focused kept current = current
focused on_trigger current = none
focused (on_option i) current = some i
