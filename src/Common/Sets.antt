-- ===== src/Common/Sets.antt =====
-- A `Set<string>`: its texts in the order of insertion, none twice.
use modelshelf.Common.{
  String, Bool, false, not, ◌||◌, List, [], ◌∷◌, ◌++◌, ◌≡◌, refl, str_eq, if◌then◌else◌, keep,
  arith, eq_iff, Bool-cases, inl, inr,
}

abbrev pub StringSet : Type 0
StringSet = List String

-- `set.has(value)`
unfoldable pub has : String → StringSet → Bool
has v [] = false
has v (x ∷ xs) = str_eq x v || has v xs

-- `set.add(value)`
unfoldable pub add : String → StringSet → StringSet
add v xs = if has v xs then xs else xs ++ v ∷ []

-- `set.delete(value)`
unfoldable pub delete : String → StringSet → StringSet
delete v xs = keep (λ x. not (str_eq x v)) xs

-- `for (const value of values) set.add(value)`
unfoldable pub add_all : List String → StringSet → StringSet
add_all [] s = s
add_all (v ∷ vs) s = add_all vs (add v s)

-- `for (const value of values) set.delete(value)`
unfoldable pub delete_all : List String → StringSet → StringSet
delete_all [] s = s
delete_all (v ∷ vs) s = delete_all vs (delete v s)

-- `new Set(values)`
unfoldable pub of_list : List String → StringSet
of_list values = add_all values []

pub has-append : (v : String) (xs ys : StringSet) → has v (xs ++ ys) ≡ (has v xs || has v ys)
unfolding has
has-append v [] ys = refl
has-append v (x ∷ xs) ys = ground (arith, has-append v xs ys)

has-nil : (v : String) → has v [] ≡ false
unfolding has
has-nil v = refl

has-one : (v w : String) → has v (w ∷ []) ≡ str_eq w v
unfolding has
has-one v w = ground arith

pub has-add : (v w : String) (xs : StringSet) → has v (add w xs) ≡ (str_eq w v || has v xs)
unfolding add
has-add v w xs = ground (arith, has-append v xs (w ∷ []), has-one v w, eq_iff w v)

pub has-delete :
    (v w : String) (xs : StringSet) → has v (delete w xs) ≡ (if str_eq v w then false else has v xs)
unfolding has delete
has-delete v w [] = ground arith
has-delete v w (x ∷ xs) = ground (arith, eq_iff x w, eq_iff x v, eq_iff v w, has-delete v w xs)

pub has-add_all :
    (v : String) (vs : List String) (s : StringSet) → has v (add_all vs s) ≡ (has v vs || has v s)
unfolding has add_all
has-add_all v [] s = refl
has-add_all v (w ∷ vs) s = rw (has-add_all v vs (add w s)) (ground (arith, has-add v w s))

pub has-delete_all :
    (v : String) (vs : List String) (s : StringSet)
    → has v (delete_all vs s) ≡ (if has v vs then false else has v s)
unfolding has delete_all
has-delete_all v [] s = refl
has-delete_all v (w ∷ vs) s =
    rw (has-delete_all v vs (delete w s)) (ground (arith, has-delete v w s, eq_iff v w, eq_iff w v))

pub has-of_list : (v : String) (vs : List String) → has v (of_list vs) ≡ has v vs
unfolding of_list
has-of_list v vs = rw (has-add_all v vs []) (ground (arith, has-nil v))

-- No text stands in the list twice.
abbrev pub Distinct : List String → Type 0
Distinct [] = Unit
Distinct (x ∷ xs) = (has x xs ≡ false) × Distinct xs

Distinct-append_one :
    (v : String) (xs : List String) → has v xs ≡ false → Distinct xs → Distinct (xs ++ v ∷ [])
unfolding has
Distinct-append_one v [] h d = (refl, tt)
Distinct-append_one v (x ∷ xs) h (new, d) = (
  rw (has-append x xs (v ∷ []), new) (ground (arith, h, has-one x v, eq_iff x v, eq_iff v x)),
  Distinct-append_one v xs (ground (arith, h)) d,
)

pub Distinct-add : (v : String) (xs : StringSet) → Distinct xs → Distinct (add v xs)
unfolding add
Distinct-add v xs d = elim (Bool-cases (has v xs)) [
  | inl old ↦ rw old d
  | inr new ↦ rw new (Distinct-append_one v xs new d)
]

pub Distinct-delete : (v : String) (xs : StringSet) → Distinct xs → Distinct (delete v xs)
unfolding delete
Distinct-delete v [] d = tt
Distinct-delete v (x ∷ xs) (new, d) = elim (Bool-cases (str_eq x v)) [
  | inl same ↦ rw same (Distinct-delete v xs d)
  | inr other ↦ rw other (ground (arith, new, has-delete x v xs), Distinct-delete v xs d)
]

pub Distinct-add_all : (vs : List String) (s : StringSet) → Distinct s → Distinct (add_all vs s)
unfolding add_all
Distinct-add_all [] s d = d
Distinct-add_all (v ∷ vs) s d = Distinct-add_all vs (add v s) (Distinct-add v s d)

pub Distinct-delete_all :
    (vs : List String) (s : StringSet) → Distinct s → Distinct (delete_all vs s)
unfolding delete_all
Distinct-delete_all [] s d = d
Distinct-delete_all (v ∷ vs) s d = Distinct-delete_all vs (delete v s) (Distinct-delete v s d)

pub Distinct-of_list : (vs : List String) → Distinct (of_list vs)
unfolding of_list
Distinct-of_list vs = Distinct-add_all vs [] tt
