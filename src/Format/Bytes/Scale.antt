-- ===== src/Format/Bytes/Scale.antt =====
-- The unit that `formatBytes` picks and the digits that it shows.
use modelshelf.Common.{
  ℕ, ◌+◌, ◌*◌, ◌^◌, ◌≤◌, ◌<◌, ◌≡◌, ◌⊎◌, inl, inr, some, Bool-cases, ltb, arith, get_elem?,
}
use modelshelf.Format.Bytes.{units, Scaled, scale, nearest}

-- What the loop promises of the unit with index `k`, for the size `n / d` in bytes.
pub record FitsUnit (n d k : ℕ) (s : Scaled) : Type 0 where
  pub listed : get_elem? units k ≡ some s.unit
  pub same_num : s.num ≡ n
  pub same_size : s.den ≡ d * 1024 ^ k
  pub below_next : (k ≡ 4) ⊎ (n < 1024 * s.den)
  pub not_too_small : (k ≡ 0) ⊎ (s.den ≤ n)

-- The loop of `formatBytes` ends with the unit in which the size is at least 1 (or bytes) and
-- below 1024 (or TiB), and with the size divided by exactly that unit.
pub scale-FitsUnit :
    (n d : ℕ) → (k : ℕ) × FitsUnit n d k (scale units (record { unit = "B"; num = n; den = d }))
unfolding scale
scale-FitsUnit n d = elim (Bool-cases (ltb n (1024 * d))) [
  | inl b ↦ (0, ground arith)
  | inr b ↦ elim (Bool-cases (ltb n (1024 * (d * 1024)))) [
    | inl kib ↦ (1, ground arith)
    | inr kib ↦ elim (Bool-cases (ltb n (1024 * (d * 1024 * 1024)))) [
      | inl mib ↦ (2, ground arith)
      | inr mib ↦ elim (Bool-cases (ltb n (1024 * (d * 1024 * 1024 * 1024)))) [
        | inl gib ↦ (3, ground arith)
        | inr gib ↦ (4, ground arith)
      ]
    ]
  ]
]

-- `toFixed` is off by at most half a unit in the last digit.
pub nearest_error :
    (n d : ℕ) → 0 < d → (2 * n ≤ 2 * (nearest n d * d) + d) × (2 * (nearest n d * d) ≤ 2 * n + d)
unfolding nearest
nearest_error n d h = grind arith
