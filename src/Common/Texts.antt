-- ===== src/Common/Texts.antt =====
-- Texts as the interface writes and tests them.
pub mod Decimal
use Prim.Native.Nat.{ℕ, zero, suc, ◌/◌, ◌%◌}
use Prim.Native.String
use Prim.Native.String.{String}
use mathlib.Core.Bool.{Bool, true, false}
use mathlib.Core.List.{List, [], ◌∷◌}
use mathlib.Core.Option.{Option, none, some}
use text.Mathlib.Text.{◌==◌ as text_eq}
use modelshelf.Common.Tests.{ltb, if◌then◌else◌}

-- `left === right` on texts
abbrev pub str_eq : String → String → Bool
str_eq s t = text_eq s t

-- A text is truthy if it is not empty.
abbrev pub truthy : String → Bool
truthy String.[] = false
truthy (String.◌∷◌ _ _) = true

-- An optional text is truthy if it is present and not empty.
abbrev pub truthy? : Option String → Bool
truthy? none = false
truthy? (some s) = truthy s

infixr 60 ◌&◌
abbrev pub ◌&◌ : String → String → String
s & t = String.◌++◌ s t

-- The text of a digit; callers pass numbers below 10.
digit : ℕ → String
digit zero = "0"
digit (suc zero) = "1"
digit (suc (suc zero)) = "2"
digit (suc (suc (suc zero))) = "3"
digit (suc (suc (suc (suc zero)))) = "4"
digit (suc (suc (suc (suc (suc zero))))) = "5"
digit (suc (suc (suc (suc (suc (suc zero)))))) = "6"
digit (suc (suc (suc (suc (suc (suc (suc zero))))))) = "7"
digit (suc (suc (suc (suc (suc (suc (suc (suc zero)))))))) = "8"
digit _ = "9"

-- `String(n)` on a whole number, in decimal; fuel `n` is more than the digits.
show_from : ℕ → ℕ → String → String
show_from zero n rest = digit (n % 10) & rest
show_from (suc fuel) n rest =
    let more = show_from fuel (n / 10) (digit (n % 10) & rest) in
    if ltb n 10 then digit n & rest else more

unfoldable pub show : ℕ → String
unfolding show_from digit
show n = show_from n n ""

-- `values.join(separator)`
abbrev pub join : String → List String → String
join sep [] = ""
join sep (s ∷ []) = s
join sep (s ∷ t ∷ rest) = s & sep & join sep (t ∷ rest)
