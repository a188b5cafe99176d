-- ===== src/Common/Texts/Decimal.antt =====
-- The decimal text of a number: it stands for one number only, and it consists of digits.
use text.Mathlib.TextLemmas.{nil-append, cons-append}
use modelshelf.Common.Tests.{ltb, Bool-cases}
use modelshelf.Common.Texts.{digit, show_from, show, ◌&◌}
use Prim.Native.Nat.{ℕ, zero, suc, ◌+◌, ◌-◌, ◌*◌, ◌/◌, ◌%◌, ◌≤◌, ◌<◌}
use Prim.Native.Char.{Char, code}
use Prim.Native.String.{String}
use mathlib.Core.Path.{◌≡◌, refl, sym, ap, ◌∙◌, subst}
use mathlib.Core.Logic.{◌≢◌, inl, inr}
use native.Mathlib.Omega.{arith}

-- The number that the digits of a text continue.
value : ℕ → String → ℕ
value n String.[] = n
value n (String.◌∷◌ c s) = value (10 * n + (code c - b'0')) s

digit_lem :
    (d : ℕ)
    → (c : Char) × (digit d ≡ String.◌∷◌ c "") × (code c ≢ b'-') × (d < 10 → code c - b'0' ≡ d)
unfolding digit
digit_lem zero = ("0", refl, omega arith, λ h. omega arith)
digit_lem (suc zero) = ("1", refl, omega arith, λ h. omega arith)
digit_lem (suc (suc zero)) = ("2", refl, omega arith, λ h. omega arith)
digit_lem (suc (suc (suc zero))) = ("3", refl, omega arith, λ h. omega arith)
digit_lem (suc (suc (suc (suc zero)))) = ("4", refl, omega arith, λ h. omega arith)
digit_lem (suc (suc (suc (suc (suc zero))))) = ("5", refl, omega arith, λ h. omega arith)
digit_lem (suc (suc (suc (suc (suc (suc zero)))))) = ("6", refl, omega arith, λ h. omega arith)
digit_lem (suc (suc (suc (suc (suc (suc (suc zero))))))) =
    ("7", refl, omega arith, λ h. omega arith)
digit_lem (suc (suc (suc (suc (suc (suc (suc (suc zero)))))))) =
    ("8", refl, omega arith, λ h. omega arith)
digit_lem (suc (suc (suc (suc (suc (suc (suc (suc (suc m))))))))) =
    ("9", refl, omega arith, λ h. omega arith)

digit-cons : (d : ℕ) (rest : String) → digit d & rest ≡ String.◌∷◌ (digit_lem d).0 rest
digit-cons d rest =
    let (c, e, _, _) = digit_lem d in
    ap (λ t. t & rest) e ∙ cons-append c "" rest ∙ ap (String.◌∷◌ c) (nil-append rest)

value-digit :
    (n d : ℕ) (rest : String) → d < 10 → value n (digit d & rest) ≡ value (10 * n + d) rest
unfolding value
value-digit n d rest h =
    let (c, _, _, of_digit) = digit_lem d in
    ap (value n) (digit-cons d rest) ∙ ap (λ k. value (10 * n + k) rest) (of_digit h)

value-show_from :
    (fuel n : ℕ) (rest : String) → n ≤ fuel → value 0 (show_from fuel n rest) ≡ value n rest
unfolding show_from
value-show_from zero n rest h =
    value-digit 0 (n % 10) rest (omega arith) ∙ ap (λ k. value k rest) (omega arith)
value-show_from (suc fuel) n rest h = elim (Bool-cases (ltb n 10)) [
  | inl e ↦ rw e (value-digit 0 n rest (ground arith) ∙ ap (λ k. value k rest) (omega arith))
  | inr e ↦ rw e (
      value-show_from fuel (n / 10) (digit (n % 10) & rest) (ground arith)
      ∙ value-digit (n / 10) (n % 10) rest (omega arith)
      ∙ ap (λ k. value k rest) (omega arith))
]

pub show_inj : (m n : ℕ) → show m ≡ show n → m ≡ n
unfolding show value
show_inj m n e =
    sym (value-show_from m m "" (omega arith))
    ∙ ap (value 0) e
    ∙ value-show_from n n "" (omega arith)

-- No character of the text has the code.
abbrev pub Without : ℕ → String → Type 0
Without k String.[] = Unit
Without k (String.◌∷◌ c s) = (code c ≢ k) × Without k s

digit-Without : (d : ℕ) (rest : String) → Without b'-' rest → Without b'-' (digit d & rest)
digit-Without d rest h =
    let (c, _, no_dash, _) = digit_lem d in
    subst (Without b'-') (sym (digit-cons d rest)) (no_dash, h)

show_from-Without :
    (fuel n : ℕ) (rest : String) → Without b'-' rest → Without b'-' (show_from fuel n rest)
unfolding show_from
show_from-Without zero n rest h = digit-Without (n % 10) rest h
show_from-Without (suc fuel) n rest h = elim (Bool-cases (ltb n 10)) [
  | inl e ↦ rw e (digit-Without n rest h)
  | inr e ↦
      rw e (show_from-Without fuel (n / 10) (digit (n % 10) & rest) (digit-Without (n % 10) rest h))
]

pub show-Without : (n : ℕ) → Without b'-' (show n)
unfolding show
show-Without n = show_from-Without n n "" tt
