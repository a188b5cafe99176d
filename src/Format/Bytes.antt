-- ===== src/Format/Bytes.antt =====
-- `formatBytes` and `formatRate` of packages/ui/src/api.ts.
pub mod Scale
use modelshelf.Common.{
  ℕ, zero, suc, ◌+◌, ◌*◌, ◌/◌, ◌%◌, ltb, leb, String, List, [], ◌∷◌, Bool, ◌||◌, Option, none, some,
  if◌then◌else◌, str_eq, show, ◌&◌,
}

abbrev pub units : List String
units = "B" ∷ "KiB" ∷ "MiB" ∷ "GiB" ∷ "TiB" ∷ []

-- The variables of the loop: the unit and the size `num / den` in that unit.
pub record Scaled : Type 0 where
  pub unit : String
  pub num : ℕ
  pub den : ℕ

-- The loop of `formatBytes` over the units that are left.
unfoldable pub scale : List String → Scaled → Scaled
scale [] s = s
scale (candidate ∷ rest) s =
    let here = record s { unit = candidate } in
    let more = scale rest (record s { unit = candidate; den = s.den * 1024 }) in
    if ltb s.num (1024 * s.den) || str_eq candidate "TiB" then here else more

-- The nearest whole number to `n / d`, the larger of two, as `toFixed` rounds.
unfoldable pub nearest : ℕ → ℕ → ℕ
nearest n d = (2 * n + d) / (2 * d)

-- `size.toFixed(0)` and `size.toFixed(1)`
to_fixed_zero : ℕ → ℕ → String
unfolding nearest
to_fixed_zero n d = show (nearest n d)

to_fixed_one : ℕ → ℕ → String
unfolding nearest
to_fixed_one n d = let tenths = nearest (10 * n) d in show (tenths / 10) & "." & show (tenths % 10)

unfoldable pub scaled_text : Scaled → String
unfolding to_fixed_zero to_fixed_one
scaled_text s =
    (if leb (10 * s.den) s.num then to_fixed_zero s.num s.den else to_fixed_one s.num s.den)
    & " "
    & s.unit

-- `formatBytes(n / d)`
unfoldable pub format_fraction : ℕ → ℕ → String
unfolding scale scaled_text
format_fraction n d = scaled_text (scale units (record { unit = "B"; num = n; den = d }))

-- `formatBytes` on a whole number of bytes
unfoldable pub format_bytes : ℕ → String
unfolding format_fraction
format_bytes n = format_fraction n 1

-- `formatRate`, on thousandths of a byte per second
unfoldable pub format_rate : Option ℕ → String
unfolding format_fraction
format_rate none = "—"
format_rate (some n) = if ltb 0 n then format_fraction n 1000 & "/s" else "—"
