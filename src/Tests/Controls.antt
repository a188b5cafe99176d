-- ===== src/Tests/Controls.antt =====
-- The shared controls on concrete inputs.
use modelshelf.Common.{ℕ, ◌≤◌, true, none, some, ◌≡◌, arith}
use modelshelf.Fields.Select.{arrow_up, home, end_key, on_option, key_pressed}
use modelshelf.Fields.Select.Cycle.{after_downs, key_pressed-after_downs}

key_pressed-after_downs_example :
    ((k : ℕ) × (k ≤ 3) × (after_downs k 3 (some 2) none ≡ some 1))
    × ((true ≡ true) × ((key_pressed arrow_up 3 (some 0) none true).focus ≡ on_option 2))
    × ((key_pressed home 3 (some 2) none true).focus ≡ on_option 0)
    × ((key_pressed end_key 3 (some 2) none true).focus ≡ on_option 2)
unfolding key_pressed
key_pressed-after_downs_example =
    key_pressed-after_downs 3 2 1 none true (omega arith) (omega arith)
