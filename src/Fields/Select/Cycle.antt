-- ===== src/Fields/Select/Cycle.antt =====
-- The arrow keys reach every option.
use native.Mathlib.Nat.{mod-eq_of_lt, mod_self, mod-eq-sub-mod}
use modelshelf.Common.{
  ℕ, zero, suc, ◌+◌, ◌-◌, ◌%◌, ◌≤◌, ◌<◌, ltb, Bool, true, Option, some, if◌then◌else◌, ◌≡◌, refl,
  ap, ◌∙◌, arith, inl, inr, Bool-cases,
}
use modelshelf.Fields.Select.{
  arrow_down, arrow_up, home, end_key, on_option, step_from, key_pressed, focused,
}

abbrev next : ℕ → ℕ → ℕ
next n i = if ltb (suc i) n then suc i else 0

abbrev previous : ℕ → ℕ → ℕ
previous n i = if ltb 0 i then i - 1 else n - 1

mod-add_self : (n i : ℕ) → (i + n) % n ≡ i % n
mod-add_self n i = mod-eq-sub-mod (omega arith) ∙ ap (λ k. k % n) (omega arith)

step_from-down : (n i : ℕ) → i < n → step_from arrow_down n i ≡ next n i
step_from-down n i h = mod-add_self n (i + 1) ∙ elim (Bool-cases (ltb (suc i) n)) [
  | inl e ↦ rw e (mod-eq_of_lt (ground arith) ∙ omega arith)
  | inr e ↦ let last : i + 1 ≡ n = ground arith in rw e (ap (λ k. k % n) last ∙ mod_self n)
]

step_from-up : (n i : ℕ) → i < n → step_from arrow_up n i ≡ previous n i
step_from-up n i h = elim (Bool-cases (ltb 0 i)) [
  | inl e ↦
      let inside : i + n - 1 ≡ (i - 1) + n = ground arith in
      rw e (ap (λ k. k % n) inside ∙ mod-add_self n (i - 1) ∙ mod-eq_of_lt (ground arith))
  | inr e ↦
      let last : i + n - 1 ≡ n - 1 = ground arith in
      rw e (ap (λ k. k % n) last ∙ mod-eq_of_lt (ground arith))
]

-- The option that has the focus after some presses of the arrow down.
abbrev pub after_downs : ℕ → ℕ → Option ℕ → Option ℕ → Option ℕ
after_downs zero n current selected = current
after_downs (suc k) n current selected =
    after_downs k n (focused (key_pressed arrow_down n current selected true).focus current)
      selected

down :
    (n i : ℕ) (selected : Option ℕ) (is_open : Bool)
    → i < n
    → (key_pressed arrow_down n (some i) selected is_open).focus ≡ on_option (next n i)
unfolding key_pressed
down n i selected is_open h = rw (step_from-down n i h) (ground arith)

up :
    (n i : ℕ) (selected : Option ℕ) (is_open : Bool)
    → i < n
    → (key_pressed arrow_up n (some i) selected is_open).focus ≡ on_option (previous n i)
unfolding key_pressed
up n i selected is_open h = rw (step_from-up n i h) (ground arith)

down_then :
    (k n i : ℕ) (selected : Option ℕ)
    → i < n
    → after_downs (suc k) n (some i) selected ≡ after_downs k n (some (next n i)) selected
down_then k n i selected h =
    ap (λ f. after_downs k n (focused f (some i)) selected) (down n i selected true h)

ahead :
    (d n i : ℕ) (selected : Option ℕ) → i + d < n → after_downs d n (some i) selected ≡ some (i + d)
ahead zero n i selected h = ap some (omega arith)
ahead (suc d) n i selected h =
    let one_on : next n i ≡ suc i = ground arith in
    down_then d n i selected (omega arith)
    ∙ rw one_on (ahead d n (suc i) selected (omega arith) ∙ ap some (omega arith))

around :
    (d n i j : ℕ) (selected : Option ℕ)
    → i + d + 1 ≡ n
    → j < n
    → after_downs (suc (d + j)) n (some i) selected ≡ some j
around zero n i j selected last h =
    let first : next n i ≡ 0 = ground arith in
    let zero_on : 0 + j ≡ j = omega arith in
    down_then (0 + j) n i selected (omega arith)
    ∙ rw first (
        ap (λ k. after_downs k n (some 0) selected) zero_on
        ∙ ahead j n 0 selected (omega arith)
        ∙ ap some (omega arith))
around (suc d) n i j selected last h =
    let one_on : next n i ≡ suc i = ground arith in
    let carried : suc d + j ≡ suc (d + j) = omega arith in
    down_then (suc d + j) n i selected (omega arith)
    ∙ rw one_on (
        ap (λ k. after_downs k n (some (suc i)) selected) carried
        ∙ around d n (suc i) j selected (omega arith) h)

reached :
    (n i j : ℕ) (selected : Option ℕ)
    → i < n
    → j < n
    → (k : ℕ) × (k ≤ n) × (after_downs k n (some i) selected ≡ some j)
reached n i j selected hi hj = elim (Bool-cases (ltb j i)) [
  | inl before ↦
      (suc (n - suc i + j), ground arith, around (n - suc i) n i j selected (omega arith) hj)
  | inr after ↦
      (j - i, omega arith, ahead (j - i) n i selected (ground arith) ∙ ap some (ground arith))
]

up_after_down :
    (n i : ℕ) (selected : Option ℕ) (is_open : Bool)
    → i < n
    → let went = key_pressed arrow_down n (some i) selected is_open in
      (key_pressed arrow_up n (focused went.focus (some i)) selected went.is_open).focus
      ≡ on_option i
up_after_down n i selected is_open h =
    let back : previous n (next n i) ≡ i = ground arith in
    rw (down n i selected is_open h) (
      up n (next n i) selected (key_pressed arrow_down n (some i) selected is_open).is_open
        (ground arith)
      ∙ ap on_option back)

-- In a list of options of which one has the focus, some presses of the arrow down, at most as many
-- as there are options, give the focus to any other one; the arrow up goes back from where the arrow
-- down went, the first option from the last one included; and the keys for the start and the end
-- give the focus to the first and to the last option.
pub key_pressed-after_downs :
    (n i j : ℕ) (selected : Option ℕ) (is_open : Bool)
    → i < n
    → j < n
    → ((k : ℕ) × (k ≤ n) × (after_downs k n (some i) selected ≡ some j))
      × (let went = key_pressed arrow_down n (some i) selected is_open in
          (went.is_open ≡ true)
          × ((key_pressed arrow_up n (focused went.focus (some i)) selected went.is_open).focus
              ≡ on_option i))
      × ((key_pressed home n (some i) selected is_open).focus ≡ on_option 0)
      × ((key_pressed end_key n (some i) selected is_open).focus ≡ on_option (n - 1))
unfolding key_pressed
key_pressed-after_downs n i j selected is_open hi hj = (
  reached n i j selected hi hj,
  (refl, up_after_down n i selected is_open hi),
  ground arith,
  ground arith,
)
