-- ===== src/Common/Params.antt =====
-- A `URLSearchParams`: its pairs of a key and a value, in order.
use modelshelf.Common.{
  String, not, List, [], ◌∷◌, ◌≡◌, refl, Option, none, some, str_eq, if◌then◌else◌, keep, arith,
  eq_iff,
}

abbrev pub Params : Type 0
Params = List (String × String)

unfoldable pub get : String → Params → Option String
get k [] = none
get k ((j, v) ∷ ps) = if str_eq j k then some v else get k ps

unfoldable pub delete : String → Params → Params
delete k ps = keep (λ p. not (str_eq p.0 k)) ps

-- The first pair of the key takes the value, and its other pairs go; a new key goes last.
unfoldable pub set : String → String → Params → Params
unfolding delete
set k v [] = (k, v) ∷ []
set k v ((j, w) ∷ ps) = if str_eq j k then (k, v) ∷ delete k ps else (j, w) ∷ set k v ps

pub get-delete :
    (k j : String) (ps : Params) → get j (delete k ps) ≡ (if str_eq k j then none else get j ps)
unfolding get delete
get-delete k j [] = ground arith
get-delete k j ((i, w) ∷ ps) = ground (arith, eq_iff i k, eq_iff i j, eq_iff k j, get-delete k j ps)

pub get-set :
    (k j v : String) (ps : Params) → get j (set k v ps) ≡ (if str_eq k j then some v else get j ps)
unfolding get set
get-set k j v [] = refl
get-set k j v ((i, w) ∷ ps) =
    ground (arith, eq_iff i k, eq_iff i j, eq_iff k j, get-delete k j ps, get-set k j v ps)
