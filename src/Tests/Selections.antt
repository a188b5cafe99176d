-- ===== src/Tests/Selections.antt =====
-- The summary of a selection on concrete inputs.
use modelshelf.Common.{[], ◌∷◌, none, ◌≡◌, refl, show, arith}
use modelshelf.Common.Sets.{of_list, add_all, add, has}
use modelshelf.Common.Scan.{split_slash, includes, begins_with}
use modelshelf.Selection.{
  selection_summary, sorted_summary, gguf_summary, mixed_summary, variant_name, ends_gguf,
}
use modelshelf.Common.{String, true, false, arith, eq_iff}
use modelshelf.NewTask.Review.{toggle_selected_paths}
use modelshelf.Selection.Canonical.{toggle_selected_paths_comm}
use modelshelf.Tests.Orders.{code_order, by_code, apart}
use modelshelf.Tests.Samples.{no_order, same_text}

summaries :
    (selection_summary no_order same_text none ≡ "Full repository")
    × (variant_name "m-Q4-00001-of-00002.GGUF" ≡ "m-Q4")
    × (variant_name "m.gguf" ≡ "m")
    × (sorted_summary no_order same_text ("a/x" ∷ "b/y" ∷ "z" ∷ []) ≡ "a/ + b/ + 1 root file")
    × (gguf_summary ("q4/x.gguf" ∷ "q4/y.gguf" ∷ []) ≡ "GGUF · q4")
unfolding selection_summary sorted_summary gguf_summary mixed_summary variant_name of_list add_all
    add has split_slash includes begins_with ends_gguf show
summaries = (refl, refl, refl, refl, refl)

no_common : (v : String) → has v ("a" ∷ []) ≡ true → has v ("b" ∷ []) ≡ true → true ≡ false
unfolding has
no_common v h k = ground (arith, h, k, eq_iff "a" v, eq_iff "b" v, eq_iff "a" "b")

toggle_selected_paths_comm_example :
    (toggle_selected_paths code_order
        ("b" ∷ [])
        false
        (toggle_selected_paths code_order ("a" ∷ []) true ("b" ∷ "c" ∷ []))
      ≡ toggle_selected_paths code_order
          ("a" ∷ [])
          true
          (toggle_selected_paths code_order ("b" ∷ []) false ("b" ∷ "c" ∷ [])))
    × (toggle_selected_paths code_order
          ("a" ∷ [])
          false
          (toggle_selected_paths code_order ("a" ∷ []) true ("b" ∷ "c" ∷ []))
        ≡ toggle_selected_paths code_order ("a" ∷ []) false ("b" ∷ "c" ∷ []))
toggle_selected_paths_comm_example =
    toggle_selected_paths_comm code_order by_code ("a" ∷ []) ("b" ∷ []) ("b" ∷ "c" ∷ []) true false
      (λ s t hs ht h k. apart s t h k) no_common
