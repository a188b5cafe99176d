-- ===== src/Guide/Ids.antt =====
-- The ids of the headings of a document.
use text.Mathlib.TextLemmas.{
  nil-append, cons-append, cons-eq-cons, append_cancel_left, append-nil as text_append-nil,
}
use mathlib.Core.Path.{ap₂}
use mathlib.Core.List.{map-append}
use modelshelf.Common.{
  ℕ, zero, suc, ◌≤◌, ◌==◌, Char, String, List, [], ◌∷◌, ◌++◌, map, true, if◌then◌else◌, ◌&◌, str_eq,
  show, show_inj, show-Without, Without, All, subst, append-nil, append_assoc, ◌≡◌, ◌≢◌, refl, sym,
  ap, ◌∙◌, arith, eq_iff, eq_refl, Bool-cases, inl, inr,
}
use modelshelf.Common.Sets.{has}
use modelshelf.Guide.{
  dash, use_id, unique_id, UsedIds, Heading, Outline, heading, outlined, rendered_headings,
}

Without-append : (k : ℕ) (s t : String) → Without k (s & t) → Without k t
Without-append k String.[] t h = subst (Without k) (nil-append t) h
Without-append k (String.◌∷◌ c s) t h =
    Without-append k s t (subst (Without k) (cons-append c s t) h).1

dash-append : (s : String) → "-" & s ≡ String.◌∷◌ dash s
dash-append s = cons-append dash "" s ∙ ap (String.◌∷◌ dash) (nil-append s)

-- A text without "-" does not go on after one.
no_later_dash :
    (c : Char) (y d e : String) → Without b'-' d → "" & "-" & d ≡ String.◌∷◌ c y & "-" & e → ⊥
no_later_dash c y d e h same =
    let heads =
      sym (dash-append d) ∙ sym (nil-append ("-" & d)) ∙ same ∙ cons-append c y ("-" & e) in
    let rest = Without-append b'-' y ("-" & e) (subst (Without b'-') (cons-eq-cons.0 heads).1 h) in
    (subst (Without b'-') (dash-append e) rest).0 refl

cut_at_dash :
    (x y d e : String)
    → Without b'-' d
    → Without b'-' e
    → x & "-" & d ≡ y & "-" & e
    → (x ≡ y) × (d ≡ e)
cut_at_dash String.[] String.[] d e hd he same =
    (refl, append_cancel_left "-" d e (simp nil-append at same))
cut_at_dash String.[] (String.◌∷◌ c y) d e hd he same = absurd (no_later_dash c y d e hd same)
cut_at_dash (String.◌∷◌ c x) String.[] d e hd he same = absurd (no_later_dash c x e d he (sym same))
cut_at_dash (String.◌∷◌ c x) (String.◌∷◌ b y) d e hd he same =
    let (heads, rest) =
      cons-eq-cons.0 (sym (cons-append c x ("-" & d)) ∙ same ∙ cons-append b y ("-" & e)) in
    let (xy, de) = cut_at_dash x y d e hd he rest in (ap₂ String.◌∷◌ heads xy, de)

-- No text of the list is another one that is followed by "-" and a number.
abbrev pub Apart : List String → Type 0
Apart bases =
    (b c : String) → has b bases ≡ true → has c bases ≡ true → (n : ℕ) → b ≢ c & "-" & show (suc n)

unique_id_inj :
    (bases : List String) (b c : String) (m n : ℕ)
    → Apart bases
    → has b bases ≡ true
    → has c bases ≡ true
    → unique_id b m ≡ unique_id c n
    → (b ≡ c) × (m ≡ n)
unfolding unique_id
unique_id_inj bases b c zero zero apart hb hc e = (e, refl)
unique_id_inj bases b c zero (suc n) apart hb hc e = absurd (apart b c hb hc n e)
unique_id_inj bases b c (suc m) zero apart hb hc e = absurd (apart c b hc hb m (sym e))
unique_id_inj bases b c (suc m) (suc n) apart hb hc e =
    let (bc, shown) =
      cut_at_dash b c (show (suc m)) (show (suc n)) (show-Without (suc m)) (show-Without (suc n))
        e in
    (bc, show_inj (suc m) (suc n) shown)

abbrev pub Distinct : List String → Type 0
Distinct [] = Unit
Distinct (x ∷ xs) = All (λ y. x ≢ y) xs × Distinct xs

All-imp :
    {P Q : String → Type 0} (xs : List String) → ((x : String) → P x → Q x) → All P xs → All Q xs
All-imp [] f h = tt
All-imp (x ∷ xs) f h = (f x h.0, All-imp xs f h.1)

All-has : (P : String → Type 0) (xs : List String) (x : String) → All P xs → has x xs ≡ true → P x
unfolding has
All-has P [] x h e = ground (arith, e)
All-has P (y ∷ ys) x h e = elim (Bool-cases (str_eq y x)) [
  | inl same ↦ subst P ((eq_iff y x).0 same) h.0
  | inr other ↦ All-has P ys x h.1 (ground (arith, e, other))
]

-- Texts without "-" are apart.
pub Apart-Without : (bases : List String) → All (Without b'-') bases → Apart bases
Apart-Without bases h b c hb hc n e =
    let t =
      Without-append b'-' c ("-" & show (suc n))
        (subst (Without b'-') e (All-has (Without b'-') bases b h hb)) in
    (subst (Without b'-') (dash-append (show (suc n))) t).0 refl

-- Of the ids of the headings, those of the second level.
abbrev pub second_level : List Heading → List String → List String
second_level [] ids = []
second_level (h ∷ hs) [] = []
second_level (h ∷ hs) (id ∷ ids) =
    let rest = second_level hs ids in if h.depth == 2 then id ∷ rest else rest

abbrev pub entry_ids : Outline → List String
entry_ids o = map (λ entry. entry.id) o.headings

module _ (id_of : String → String) where
  abbrev pub bases_of : List Heading → List String
  bases_of hs = map (λ h. id_of h.text) hs

  record Formed (bases : List String) (used : UsedIds) (id : String) : Type 0 where
    base : String
    count : ℕ
    listed : has base bases ≡ true
    not_before : used base ≤ count
    made : id ≡ unique_id base count

  Formed-outlined :
      (hs : List Heading) (o : Outline)
      → All (Formed (bases_of hs) o.used_ids) (outlined id_of hs o).0
  unfolding outlined heading use_id has
  Formed-outlined [] o = tt
  Formed-outlined (h ∷ hs) o = (
    record {
      base = id_of h.text;
      count = o.used_ids (id_of h.text);
      listed = rw (eq_refl (id_of h.text)) refl;
      not_before = omega arith;
      made = refl;
    },
    All-imp (outlined id_of hs (heading id_of h o).1).0
        (λ id f. record {
          base = f.base;
          count = f.count;
          listed = ground (arith, f.listed);
          not_before = ground (arith, f.not_before, eq_iff f.base (id_of h.text));
          made = f.made;
        })
        (Formed-outlined hs (heading id_of h o).1),
  )

  Apart-tail : (h : Heading) (hs : List Heading) → Apart (bases_of (h ∷ hs)) → Apart (bases_of hs)
  unfolding has
  Apart-tail h hs apart b c hb hc = apart b c (ground (arith, hb)) (ground (arith, hc))

  Distinct-outlined :
      (hs : List Heading) (o : Outline) → Apart (bases_of hs) → Distinct (outlined id_of hs o).0
  unfolding outlined heading use_id has
  Distinct-outlined [] o apart = tt
  Distinct-outlined (h ∷ hs) o apart = (
    All-imp (outlined id_of hs (heading id_of h o).1).0
        (λ id f same.
          let (bases, counts) =
            unique_id_inj (bases_of (h ∷ hs)) (id_of h.text) f.base (o.used_ids (id_of h.text))
              f.count apart (rw (eq_refl (id_of h.text)) refl) (ground (arith, f.listed))
              (same ∙ f.made) in
          ground (arith, f.not_before, eq_iff f.base (id_of h.text), bases, counts))
        (Formed-outlined hs (heading id_of h o).1),
    Distinct-outlined hs (heading id_of h o).1 (Apart-tail h hs apart),
  )

  entry_ids-heading :
      (h : Heading) (o : Outline) (ids : List String)
      → entry_ids (heading id_of h o).1 ++ ids
        ≡ entry_ids o ++ (if h.depth == 2 then (heading id_of h o).0 ∷ ids else ids)
  unfolding heading
  entry_ids-heading h o ids = elim (Bool-cases (h.depth == 2)) [
    | inl e ↦ rw e (simp (map-append, append_assoc))
    | inr e ↦ rw e refl
  ]

  entry_ids-outlined :
      (hs : List Heading) (o : Outline)
      → entry_ids (outlined id_of hs o).1 ≡ entry_ids o ++ second_level hs (outlined id_of hs o).0
  unfolding outlined
  entry_ids-outlined [] o = sym (append-nil (entry_ids o))
  entry_ids-outlined (h ∷ hs) o =
      entry_ids-outlined hs (heading id_of h o).1
      ∙ entry_ids-heading h o (second_level hs (outlined id_of hs (heading id_of h o).1).0)

  -- The ids of the headings of a document are all different, if no heading has the base of another
  -- one with "-" and a number; and the outline links exactly to the headings of the second level.
  pub rendered_headings-Distinct :
      (hs : List Heading)
      → Apart (bases_of hs)
      → Distinct (rendered_headings id_of hs).0
        × (entry_ids (rendered_headings id_of hs).1
            ≡ second_level hs (rendered_headings id_of hs).0)
  unfolding rendered_headings
  rendered_headings-Distinct hs apart =
      let o : Outline = record { used_ids = λ base. 0; headings = [] } in
      (Distinct-outlined hs o apart, entry_ids-outlined hs o)
