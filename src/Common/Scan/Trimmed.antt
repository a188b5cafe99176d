-- ===== src/Common/Scan/Trimmed.antt =====
-- A text that is trimmed stays as it is when it is trimmed again.
use modelshelf.Common.{
  String, code, Bool, true, false, ◌&&◌, not, truthy, ◌≡◌, refl, ap, ◌∙◌, arith, Bool-cases, inl,
  inr,
}
use modelshelf.Common.Scan.{is_space, trim_start, trim_end, trim}

-- The text does not begin with white space.
starts : String → Bool
starts String.[] = true
starts (String.◌∷◌ c s) = not (is_space (code c))

starts-trim_start : (s : String) → starts (trim_start s) ≡ true
unfolding starts trim_start
starts-trim_start String.[] = refl
starts-trim_start (String.◌∷◌ c s) = elim (Bool-cases (is_space (code c))) [
  | inl space ↦ rw space (starts-trim_start s)
  | inr other ↦ rw other (rw other refl)
]

trim_start-starts : (s : String) → starts s ≡ true → trim_start s ≡ s
unfolding starts trim_start
trim_start-starts String.[] h = refl
trim_start-starts (String.◌∷◌ c s) h = ground (arith, h)

starts-trim_end : (s : String) → starts s ≡ true → starts (trim_end s) ≡ true
unfolding starts trim_end
starts-trim_end String.[] h = refl
starts-trim_end (String.◌∷◌ c s) h =
    let other : is_space (code c) ≡ false = ground (arith, h) in rw other (rw other refl)

trim_end_twice : (s : String) → trim_end (trim_end s) ≡ trim_end s
unfolding trim_end
trim_end_twice String.[] = refl
trim_end_twice (String.◌∷◌ c s) =
    elim (Bool-cases (is_space (code c) && not (truthy (trim_end s)))) [
      | inl gone ↦ rw gone refl
      | inr kept ↦ rw (kept, trim_end_twice s, kept) refl
    ]

pub trim_twice : (s : String) → trim (trim s) ≡ trim s
unfolding trim
trim_twice s =
    ap trim_end (trim_start-starts (trim s) (starts-trim_end (trim_start s) (starts-trim_start s)))
    ∙ trim_end_twice (trim_start s)
