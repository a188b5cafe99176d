-- ===== src/Tests/Formats.antt =====
-- Sizes and durations.
use modelshelf.Common.{ℕ, ◌*◌, ◌≤◌, ◌<◌, ◌≡◌, refl, some, show, ◌+◌, arith}
use modelshelf.Format.{units, scale, format_bytes, format_duration}
use modelshelf.Format.Bytes.Scale.{FitsUnit, scale-FitsUnit}
use modelshelf.Format.Duration.Reading.{Reads, format_duration-Reads}

bytes_tests :
    (format_bytes 1000 ≡ "1000 B")
    × (format_bytes 1536 ≡ "1.5 KiB")
    × (format_bytes 10239 ≡ "10.0 KiB")
    × (format_bytes 1048575 ≡ "1024 KiB")
unfolding format_bytes show
bytes_tests = (refl, refl, refl, refl)

duration_tests :
    (format_duration (some 15000) ≡ "15s")
    × (format_duration (some 3660001) ≡ "1h 1m")
    × (format_duration (some 90061000) ≡ "1d 1h")
unfolding format_duration show
duration_tests = (refl, refl, refl)

scale-FitsUnit_example :
    (k : ℕ) × FitsUnit 1536 1 k (scale units (record { unit = "B"; num = 1536; den = 1 }))
scale-FitsUnit_example = scale-FitsUnit 1536 1

format_duration-Reads_example :
    (total : ℕ) × (15000 ≤ 1000 * total)
    × (1000 * total < 15000 + 1000)
    × Reads total (format_duration (some 15000))
format_duration-Reads_example = format_duration-Reads 15000 (omega arith)
