-- ===== src/Ledger/Prefix/Tests.antt =====
-- Runs of the prefixed database, and its theorems at concrete keys.
use topia.Base.{ℕ, ◌≡◌, ◌≢◌, ◌⊎◌, Option, refl, ◌↔◌, true, false, List, [], ◌∷◌, some, arith}
use topia.Ledger.Prefix.{Bytes, bytes_ltb, has_prefix, end_iter, panicked, up_to, end_loop, walk}
use topia.Ledger.Prefix.Ranges.{below_end, end_iter-exact}
use topia.Ledger.Prefix.Walks.{under_prefix, walk-under_prefix, walk_reverse_stray}

abbrev table : Bytes
table = 7 ∷ 255 ∷ []

end_of_table : end_iter table ≡ up_to (some (8 ∷ 0 ∷ []))
unfolding end_iter end_loop
end_of_table = refl

abbrev entry : Bytes
entry = 7 ∷ 255 ∷ 3 ∷ []

end_iter-exact_example :
    ((table ≡ []) × (end_iter table ≡ panicked))
    ⊎ ((table ≢ [])
        × ((end : Option Bytes) × (end_iter table ≡ up_to end)
            × (((bytes_ltb entry table ≡ false) × (below_end entry end ≡ true))
                ↔ (has_prefix entry table ≡ true))))
end_iter-exact_example = end_iter-exact entry table (omega arith) (omega arith)

abbrev source : List (Bytes × ℕ)
source = (table, 1) ∷ (entry, 2) ∷ (8 ∷ [], 3) ∷ []

walk-under_prefix_example : walk table source ≡ under_prefix table source
unfolding bytes_ltb
walk-under_prefix_example =
    walk-under_prefix table source ((refl, (refl, tt)), ((refl, tt), (tt, tt)))
      (refl, (refl, (refl, tt)))

forward : walk table source ≡ (3 ∷ [], 2) ∷ []
unfolding walk has_prefix
forward = refl

-- Two bytes 0xFF.
abbrev full_ends : Bytes
full_ends = 7 ∷ 255 ∷ 255 ∷ []

walk_reverse_stray_example :
    (has_prefix (8 ∷ []) full_ends ≡ false)
    × (bytes_ltb (8 ∷ []) full_ends ≡ false)
    × ((end : Option Bytes) × (end_iter full_ends ≡ up_to end) × (below_end (8 ∷ []) end ≡ true))
    × (walk {V = ℕ} full_ends ((8 ∷ [], 3) ∷ (7 ∷ 255 ∷ 255 ∷ 1 ∷ [], 2) ∷ []) ≡ [])
walk_reverse_stray_example =
    walk_reverse_stray [] 7 1 3 ((7 ∷ 255 ∷ 255 ∷ 1 ∷ [], 2) ∷ []) (omega arith)
