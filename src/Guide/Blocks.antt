-- ===== src/Guide/Blocks.antt =====
-- The code blocks of the guide: their languages, their places in the document and what is put there.
use modelshelf.Common.{
  ℕ, suc, code, String, List, [], ◌∷◌, ◌++◌, map, length, get_elem?, Bool, Option, none, some,
  if◌then◌else◌, str_eq, ◌≡◌, refl, sym, ap, ◌∙◌, arith, append-nil, append_assoc, length-append,
}
use modelshelf.Common.Scan.{trim, is_space}

-- `AgentCodeLanguage`
pub data CodeLanguage : Type 0 where
  bash diff json yaml ini plain_text tsx typescript : CodeLanguage

-- The property of a plain object: one of its own, or one that every object inherits
pub data Found : Type 0 where
  own : CodeLanguage → Found
  inherited : String → Found

pub record CodeToken : Type 0 where
  pub text : String
  pub lang : Option String

pub record CodeBlock : Type 0 where
  pub code : String
  pub language : Found

-- `languageAliases`
unfoldable pub language_alias : String → Option CodeLanguage
language_alias name =
    if str_eq name "bash"
    then some bash
    else if str_eq name "sh"
    then some bash
    else if str_eq name "shell"
    then some bash
    else if str_eq name "json"
    then some json
    else if str_eq name "diff"
    then some diff
    else if str_eq name "ts"
    then some typescript
    else if str_eq name "typescript"
    then some typescript
    else if str_eq name "tsx"
    then some tsx
    else if str_eq name "yaml"
    then some yaml
    else if str_eq name "yml"
    then some yaml
    else if str_eq name "ini"
    then some ini
    else if str_eq name "fstab"
    then some ini
    else none

-- `.split(/\s+/, 1)[0]`
unfoldable pub first_word : String → String
first_word String.[] = ""
first_word (String.◌∷◌ c s) =
    let rest = first_word s in if is_space (code c) then "" else String.◌∷◌ c rest

-- The lower case is the browser's, and so are the names that every object inherits, as "constructor".
module _ (to_lower_case : String → String) (is_inherited : String → Bool) where
  unfoldable pub requested_language : Option String → String
  unfolding first_word
  requested_language none = "plaintext"
  requested_language (some lang) = to_lower_case (first_word (trim lang))

  unfoldable pub found_language : String → Found
  unfolding language_alias
  found_language requested = elim (language_alias requested) [
    | some language ↦ own language
    | none ↦ if is_inherited requested then inherited requested else own plain_text
  ]

  abbrev pub block_of : CodeToken → CodeBlock
  block_of token = record {
    code = token.text;
    language = found_language (requested_language token.lang);
  }

  -- `renderer.code`: the block is stored, and the document gets an element with its index.
  unfoldable pub code_rendered : CodeToken → List CodeBlock → ℕ × List CodeBlock
  code_rendered token blocks = (length blocks, blocks ++ (block_of token ∷ []))

  unfoldable pub codes_rendered : List CodeToken → List CodeBlock → List ℕ × List CodeBlock
  unfolding code_rendered
  codes_rendered [] blocks = ([], blocks)
  codes_rendered (token ∷ tokens) blocks =
      let (index, more) = code_rendered token blocks in
      let (indices, all_blocks) = codes_rendered tokens more in (index ∷ indices, all_blocks)

-- The elements with the attribute, in the order of the document, with the blocks that they show:
-- those at their positions, not at their indices.
module _ {ℓ} {A : Type ℓ} where
  abbrev pub at_target : A → Option CodeBlock → List (A × CodeBlock) → List (A × CodeBlock)
  at_target target none rest = rest
  at_target target (some block) rest = (target, block) ∷ rest

  unfoldable pub portals : ℕ → List A → List CodeBlock → List (A × CodeBlock)
  portals index [] blocks = []
  portals index (target ∷ targets) blocks =
      at_target target (get_elem? blocks index) (portals (suc index) targets blocks)

  portals-tail :
      (index : ℕ) (targets : List A) (b : CodeBlock) (blocks : List CodeBlock)
      → portals (suc index) targets (b ∷ blocks) ≡ portals index targets blocks
  unfolding portals
  portals-tail index [] b blocks = refl
  portals-tail index (t ∷ targets) b blocks =
      ap (at_target t (get_elem? blocks index)) (portals-tail (suc index) targets b blocks)

-- Elements in a row with blocks in a row
abbrev pub zip {ℓ κ} : {A : Type ℓ} → {B : Type κ} → List A → List B → List (A × B)
zip [] ys = []
zip (x ∷ xs) [] = []
zip (x ∷ xs) (y ∷ ys) = (x, y) ∷ zip xs ys

portals-nil {ℓ} : {A : Type ℓ} → (index : ℕ) (targets : List A) → portals index targets [] ≡ []
unfolding portals
portals-nil index [] = refl
portals-nil index (t ∷ targets) = portals-nil (suc index) targets

portals-zip {ℓ} :
    {A : Type ℓ}
    → (targets : List A) (blocks : List CodeBlock) → portals 0 targets blocks ≡ zip targets blocks
unfolding portals
portals-zip [] blocks = refl
portals-zip (t ∷ targets) [] = portals-nil 1 targets
portals-zip (t ∷ targets) (b ∷ blocks) =
    ap (λ rest. (t, b) ∷ rest) (portals-tail 0 targets b blocks ∙ portals-zip targets blocks)

-- n, n + 1, … , as many as there are tokens
abbrev pub count_from {ℓ} : {A : Type ℓ} → ℕ → List A → List ℕ
count_from n [] = []
count_from n (x ∷ xs) = n ∷ count_from (suc n) xs

module _ (to_lower_case : String → String) (is_inherited : String → Bool) where
  codes_rendered_lem :
      (tokens : List CodeToken) (blocks : List CodeBlock)
      → codes_rendered to_lower_case is_inherited tokens blocks ≡ (
        count_from (length blocks) tokens,
        blocks ++ map (block_of to_lower_case is_inherited) tokens,
      )
  unfolding codes_rendered
  codes_rendered_lem [] blocks = ap (λ bs. ([], bs)) (sym (append-nil blocks))
  codes_rendered_lem (t ∷ tokens) blocks =
      let one = block_of to_lower_case is_inherited t ∷ [] in
      let rest = codes_rendered_lem tokens (blocks ++ one) in
      let longer : length (blocks ++ one) ≡ suc (length blocks) =
        omega (arith, length-append blocks one) in
      let joined = append_assoc blocks one (map (block_of to_lower_case is_inherited) tokens) in
      rw (rest, longer, joined) refl

  -- If the elements of the document with the attribute are exactly those that stand for its code
  -- blocks, then the element of each block shows the code and the language of this block, and the
  -- index of each element is the position of its block. An element with the attribute that comes before
  -- them, as the markdown may hold one itself, shifts all blocks by one: it shows the first block, and
  -- the element of the last block shows none.
  pub portals-codes_rendered :
      (tokens : List CodeToken) (extra : ℕ)
      → let (indices, blocks) = codes_rendered to_lower_case is_inherited tokens [] in
        (portals 0 indices blocks
          ≡ zip (count_from 0 tokens) (map (block_of to_lower_case is_inherited) tokens))
        × (portals 0 (extra ∷ indices) blocks
            ≡ zip (extra ∷ count_from 0 tokens) (map (block_of to_lower_case is_inherited) tokens))
  portals-codes_rendered tokens extra =
      rw (codes_rendered_lem tokens []) (portals-zip _ _, portals-zip _ _)
