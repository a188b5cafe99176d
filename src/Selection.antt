-- ===== src/Selection.antt =====
-- packages/ui/src/selection.ts: the summary of a selection of files.
pub mod Canonical
use modelshelf.Common.{
  ℕ, ltb, leb, ◌==◌, ◌+◌, String, code, List, [], ◌∷◌, map, Bool, true, false, ◌&&◌, ◌||◌, not,
  Option, none, some, Ordering, if◌then◌else◌, truthy, ◌&◌, str_eq, join, keep, length, show,
}
use modelshelf.Common.Sets.{of_list}
use modelshelf.Common.Scan.{split_slash, includes}
use modelshelf.NewTask.Review.{sort_paths}

-- `text.endsWith(".gguf")`
unfoldable pub ends_gguf : String → Bool
ends_gguf String.[] = false
ends_gguf (String.◌∷◌ c s) = let later = ends_gguf s in str_eq (String.◌∷◌ c s) ".gguf" || later

abbrev pub first_part : List String → String
first_part [] = ""
first_part (part ∷ parts) = part

abbrev pub last_part : List String → String
last_part [] = ""
last_part (part ∷ []) = part
last_part (part ∷ q ∷ qs) = last_part (q ∷ qs)

abbrev pub but_last : List String → List String
but_last [] = []
but_last (part ∷ []) = []
but_last (part ∷ q ∷ qs) = part ∷ but_last (q ∷ qs)

-- A letter of a pattern with the flag `i`, given in lower case, and a digit
abbrev pub letter : ℕ → ℕ → Bool
letter k c = c == k || c + 32 == k

abbrev pub exactly : ℕ → ℕ → Bool
exactly k c = c == k

abbrev pub is_digit : ℕ → Bool
is_digit c = leb b'0' c && leb c b'9'

abbrev pub gguf_pattern : List (ℕ → Bool)
gguf_pattern = exactly b'.' ∷ letter b'g' ∷ letter b'g' ∷ letter b'u' ∷ letter b'f' ∷ []

abbrev pub five_digits : List (ℕ → Bool) → List (ℕ → Bool)
five_digits rest = is_digit ∷ is_digit ∷ is_digit ∷ is_digit ∷ is_digit ∷ rest

abbrev pub shard_pattern : List (ℕ → Bool)
shard_pattern =
    exactly b'-'
    ∷ five_digits
        (exactly b'-' ∷ letter b'o' ∷ letter b'f' ∷ exactly b'-' ∷ five_digits gguf_pattern)

pub fits_pattern : List (ℕ → Bool) → String → Bool
fits_pattern [] String.[] = true
fits_pattern [] (String.◌∷◌ c s) = false
fits_pattern (p ∷ ps) String.[] = false
fits_pattern (p ∷ ps) (String.◌∷◌ c s) = p (code c) && fits_pattern ps s

-- `text.replace(pattern, "")` for a pattern that ends with `$`
pub without_end : List (ℕ → Bool) → String → String
unfolding fits_pattern
without_end pattern String.[] = ""
without_end pattern (String.◌∷◌ c s) =
    let rest = without_end pattern s in
    if fits_pattern pattern (String.◌∷◌ c s) then "" else String.◌∷◌ c rest

unfoldable pub variant_name : String → String
unfolding without_end
variant_name file_name = without_end gguf_pattern (without_end shard_pattern file_name)

abbrev pub parent_of : String → String
parent_of path = join "/" (but_last (split_slash path))

abbrev pub file_name_of : String → String
file_name_of path = last_part (split_slash path)

-- The only parent, if there is one and it is no empty text
abbrev pub only_parent : List String → String → String
only_parent (parent ∷ []) otherwise = if truthy parent then "GGUF · " & parent else otherwise
only_parent parents otherwise = otherwise

abbrev pub by_names : List String → String
by_names [] = ""
by_names (path ∷ []) = "GGUF · " & file_name_of path
by_names (path ∷ q ∷ qs) = "GGUF · " & variant_name (file_name_of path)

unfoldable pub gguf_summary : List String → String
unfolding variant_name
gguf_summary paths = only_parent (of_list (map parent_of paths)) (by_names paths)

abbrev pub root_part : ℕ → String
root_part count =
    if ltb 0 count then show count & " root " & (if count == 1 then "file" else "files") else ""

abbrev pub folder_part : List String → String
folder_part roots =
    if leb (length roots) 2
    then join " + " (map (λ root. root & "/") roots)
    else show (length roots) & " top-level folders"

unfoldable pub mixed_summary : List String → String
mixed_summary sorted =
    let at_root = root_part (length (keep (λ path. not (includes path "/")) sorted)) in
    let nested = keep (λ path. includes path "/") sorted in
    let roots = of_list (map (λ path. first_part (split_slash path)) nested) in
    if length roots == 0
    then at_root
    else if truthy at_root
    then folder_part roots & " + " & at_root
    else folder_part roots

-- How the browser's locale orders two texts, and its lower case.
module _ (locale_compare : String → String → Ordering) (to_lower_case : String → String) where
  abbrev pub gguf_paths : List String → List String
  gguf_paths sorted = keep (λ path. ends_gguf (to_lower_case path)) sorted

  unfoldable pub sorted_summary : List String → String
  unfolding gguf_summary mixed_summary
  sorted_summary [] = "No files selected"
  sorted_summary (path ∷ paths) =
      if length (gguf_paths (path ∷ paths)) == length (path ∷ paths)
      then gguf_summary (gguf_paths (path ∷ paths))
      else mixed_summary (path ∷ paths)

  -- `selectionSummary`
  unfoldable pub selection_summary : Option (List String) → String
  unfolding sorted_summary
  selection_summary none = "Full repository"
  selection_summary (some paths) = sorted_summary (sort_paths locale_compare (of_list paths))
