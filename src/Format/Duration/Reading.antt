-- ===== src/Format/Duration/Reading.antt =====
-- What a duration's text stands for.
use modelshelf.Common.{
  ℕ, ◌+◌, ◌*◌, ◌≤◌, ◌<◌, ◌/◌, ◌%◌, ◌≡◌, String, some, show, ◌&◌, ltb, ◌==◌, false, inl, inr,
  Bool-cases, arith,
}
use modelshelf.Format.Duration.{ceil_seconds, clock_text, format_duration}

-- The texts that may stand for a number of whole seconds: the two largest units that are not
-- zero, each below the size of the next, with the rest dropped.
pub data Reads (total : ℕ) (text : String) : Type 0 where
  in_days :
      (d h : ℕ)
      → 0 < d
      → h < 24
      → 86400 * d + 3600 * h ≤ total
      → total < 86400 * d + 3600 * h + 3600
      → text ≡ show d & "d " & show h & "h"
      → Reads total text
  in_hours :
      (h m : ℕ)
      → 0 < h
      → h < 24
      → m < 60
      → 3600 * h + 60 * m ≤ total
      → total < 3600 * h + 60 * m + 60
      → text ≡ show h & "h " & show m & "m"
      → Reads total text
  in_minutes :
      (m s : ℕ)
      → 0 < m
      → m < 60
      → s < 60
      → 60 * m + s ≡ total
      → text ≡ show m & "m " & show s & "s"
      → Reads total text
  in_seconds : (s : ℕ) → s < 60 → s ≡ total → text ≡ show s & "s" → Reads total text

clock_text-Reads : (n : ℕ) → Reads n (clock_text n)
unfolding clock_text
clock_text-Reads n = elim (Bool-cases (ltb 0 (n / 86400))) [
  | inl d ↦
      in_days (n / 86400) (n % 86400 / 3600) (ground arith) (omega arith) (omega arith)
        (omega arith) (ground arith)
  | inr d ↦ elim (Bool-cases (ltb 0 (n % 86400 / 3600))) [
    | inl h ↦
        in_hours (n % 86400 / 3600) (n % 3600 / 60) (ground arith) (ground arith) (omega arith)
          (ground arith) (ground arith) (ground arith)
    | inr h ↦ elim (Bool-cases (ltb 0 (n % 3600 / 60))) [
      | inl m ↦
          in_minutes (n % 3600 / 60) (n % 60) (ground arith) (omega arith) (omega arith)
            (ground arith) (ground arith)
      | inr m ↦ in_seconds (n % 60) (omega arith) (ground arith) (ground arith)
    ]
  ]
]

format_duration_of_pos : (t : ℕ) → 0 < t → format_duration (some t) ≡ clock_text (ceil_seconds t)
unfolding format_duration
format_duration_of_pos t h = let e : (t == 0) ≡ false = ground arith in rw e

-- A positive duration of `t` thousandths of a second, whatever its fraction, is shown by a text
-- for the least whole number of seconds that is not below it.
pub format_duration-Reads :
    (t : ℕ)
    → 0 < t
    → (total : ℕ) × (t ≤ 1000 * total)
      × (1000 * total < t + 1000)
      × Reads total (format_duration (some t))
unfolding ceil_seconds
format_duration-Reads t h = (
  ceil_seconds t,
  omega arith,
  omega arith,
  rw (format_duration_of_pos t h) (clock_text-Reads (ceil_seconds t)),
)
