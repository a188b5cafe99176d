-- ===== src/Tests/Orders.antt =====
-- The order of texts by the codes of their characters.
use modelshelf.Common.{String, code, true, false, ◌≡◌, refl, Ordering, compare, arith}
use mathlib.Core.Path.{ap₂}
use text.Mathlib.TextEquality.{Char-path}
use modelshelf.NewTask.Review.{in_locale}
use modelshelf.NewTask.Review.Sorted.{Collation}

abbrev then_by : Ordering → Ordering → Ordering
then_by Ordering.eq rest = rest
then_by Ordering.lt rest = Ordering.lt
then_by Ordering.gt rest = Ordering.gt

pub code_order : String → String → Ordering
code_order String.[] String.[] = Ordering.eq
code_order String.[] (String.◌∷◌ d t) = Ordering.lt
code_order (String.◌∷◌ c s) String.[] = Ordering.gt
code_order (String.◌∷◌ c s) (String.◌∷◌ d t) =
    let rest = code_order s t in then_by (compare (code c) (code d)) rest

either_way : (s t : String) → in_locale (code_order s t) ≡ false → in_locale (code_order t s) ≡ true
unfolding code_order
either_way String.[] String.[] h = refl
either_way String.[] (String.◌∷◌ d t) h = ground (arith, h)
either_way (String.◌∷◌ c s) String.[] h = refl
either_way (String.◌∷◌ c s) (String.◌∷◌ d t) h = ground (arith, h, either_way s t)

carries_on :
    (s t u : String)
    → in_locale (code_order s t) ≡ true
    → in_locale (code_order t u) ≡ true
    → in_locale (code_order s u) ≡ true
unfolding code_order
carries_on String.[] t String.[] h k = refl
carries_on String.[] t (String.◌∷◌ e u) h k = refl
carries_on (String.◌∷◌ c s) String.[] u h k = ground (arith, h)
carries_on (String.◌∷◌ c s) (String.◌∷◌ d t) String.[] h k = ground (arith, k)
carries_on (String.◌∷◌ c s) (String.◌∷◌ d t) (String.◌∷◌ e u) h k =
    ground (arith, h, k, carries_on s t u)

pub apart :
    (s t : String) → in_locale (code_order s t) ≡ true → in_locale (code_order t s) ≡ true → s ≡ t
unfolding code_order
apart String.[] String.[] h k = refl
apart String.[] (String.◌∷◌ d t) h k = ground (arith, k)
apart (String.◌∷◌ c s) String.[] h k = ground (arith, h)
apart (String.◌∷◌ c s) (String.◌∷◌ d t) h k =
    let codes : code c ≡ code d = ground (arith, h, k) in
    ap₂ String.◌∷◌ (Char-path c d codes)
      (apart s t (ground (arith, h, codes)) (ground (arith, k, codes)))

pub by_code : Collation code_order
by_code = record { either_way = either_way; carries_on = carries_on }
