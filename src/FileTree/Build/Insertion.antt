-- ===== src/FileTree/Build/Insertion.antt =====
-- A file that is put into the nested maps is found at its parts, and moves no other file.
use modelshelf.Common.{
  ℕ, ◌+◌, String, List, [], ◌∷◌, Option, none, some, if◌then◌else◌, str_eq, ◌≡◌, ◌≢◌, refl, ◌∙◌,
  arith, Bool-cases, inl, inr, eq_iff, eq_refl,
}
use modelshelf.FileTree.Build.{File, Nodes, end, node, own_file, extend, insert}

-- The file of a node if no parts are left, or what is found below it.
abbrev pub held_here : List String → Option File → Option File → Option File
held_here [] own below = own
held_here (p ∷ ps) own below = below

-- The file at the node that the parts lead to.
unfoldable pub held : List String → Nodes → Option File
held [] nodes = none
held (name ∷ rest) end = none
held (name ∷ rest) (node n p own children more) =
    let below = held rest children in
    let further = held (name ∷ rest) more in
    if str_eq n name then held_here rest own below else further

-- The file that was put in is found at its parts.
held-insert :
    (f : File) (name : String) (rest : List String) (path : String) (nodes : Nodes)
    → held (name ∷ rest) (insert f (name ∷ rest) path nodes) ≡ some f
unfolding held insert
held-insert f name [] path end = ground (arith, eq_refl name)
held-insert f name (q ∷ qs) path end =
    ground (arith, eq_refl name, held-insert f q qs (extend path name) end)
held-insert f name [] path (node n p own children more) =
    ground (arith, eq_refl name, held-insert f name [] path more)
held-insert f name (q ∷ qs) path (node n p own children more) = ground (
  arith,
  eq_refl name,
  held-insert f q qs (extend path name) children,
  held-insert f name (q ∷ qs) path more,
)

pub held-end : (qs : List String) → held qs end ≡ none
unfolding held
held-end [] = refl
held-end (q ∷ qs) = refl

held_here-none : (qs : List String) → held_here qs none none ≡ none
held_here-none [] = refl
held_here-none (q ∷ qs) = refl

held_here_other :
    (f : File) (ps qs : List String) (own : Option File) (deeper below : Option File)
    → qs ≢ ps
    → deeper ≡ below
    → held_here qs (own_file ps f own) deeper ≡ held_here qs own below
held_here_other f [] [] own deeper below d e = ground arith
held_here_other f (p ∷ ps) [] own deeper below d e = refl
held_here_other f ps (q ∷ qs) own deeper below d e = e

pub held-insert_other :
    (f : File) (ps qs : List String) (path : String) (nodes : Nodes)
    → qs ≢ ps
    → held qs (insert f ps path nodes) ≡ held qs nodes
unfolding held insert
held-insert_other f ps [] path nodes d = refl
held-insert_other f [] (q ∷ qs) path nodes d = refl
held-insert_other f (p ∷ ps) (q ∷ qs) path end d = elim (Bool-cases (str_eq p q)) [
  | inl same ↦
      let differ : qs ≢ ps = λ e. d (ground (arith, same, e, eq_iff p q)) in
      rw same (
        held_here_other f ps qs none _ none differ
          (held-insert_other f ps qs (extend path p) end differ ∙ held-end qs)
        ∙ held_here-none qs)
  | inr other ↦ rw other refl
]
held-insert_other f (p ∷ ps) (q ∷ qs) path (node n o own children more) d =
    elim (Bool-cases (str_eq n q)) [
      | inl here ↦ elim (Bool-cases (str_eq n p)) [
        | inl same ↦
            let differ : qs ≢ ps = λ e. d (ground (arith, here, same, e, eq_iff n q, eq_iff n p)) in
            rw here (
              rw same (
                ground (
                  arith,
                  here,
                  held_here_other f ps qs own (held qs (insert f ps (extend path p) children))
                      (held qs children) differ
                      (held-insert_other f ps qs (extend path p) children differ),
                )))
        | inr other ↦ rw other (ground (arith, here))
      ]
      | inr there ↦ ground (arith, there, held-insert_other f (p ∷ ps) (q ∷ qs) path more d)
    ]

module _ (weight : File → ℕ) where
  abbrev pub weight_of : Option File → ℕ
  weight_of none = 0
  weight_of (some f) = weight f

  -- The sum of the weights of the files that the nodes hold.
  unfoldable pub total : Nodes → ℕ
  total end = 0
  total (node n p own children more) = weight_of own + total children + total more

  pub total-insert :
      (f : File) (ps : List String) (path : String) (nodes : Nodes)
      → ps ≢ []
      → held ps nodes ≡ none
      → total (insert f ps path nodes) ≡ weight f + total nodes
  unfolding held insert total
  total-insert f [] path nodes d h = ground arith
  total-insert f (p ∷ []) path end d h = ground arith
  total-insert f (p ∷ q ∷ qs) path end d h =
      ground (arith, total-insert f (q ∷ qs) (extend path p) end)
  total-insert f (p ∷ []) path (node n o own children more) d h =
      ground (arith, total-insert f (p ∷ []) path more)
  total-insert f (p ∷ q ∷ qs) path (node n o own children more) d h = ground (
    arith,
    total-insert f (q ∷ qs) (extend path p) children,
    total-insert f (p ∷ q ∷ qs) path more,
  )
