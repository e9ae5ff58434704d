-- ===== src/Common/ShrinkMap/Tests.antt =====
-- Runs of the shrinkable map, and its theorems at concrete maps.
use topia.Base.{ℕ, ◌≡◌, refl, List, [], ◌∷◌, none, String}
use topia.Base.Eq.{string_eq, nat_eq}
use topia.Base.Map.{lookup, insert, delete, merge}
use topia.Common.ShrinkMap.{ShrinkableMap, new_shrink_map, get, set, del}
use topia.Common.ShrinkMap.History.{Call, sets, dels, run, recall, get-run}

abbrev calls : List (Call String ℕ)
calls = sets "a" 1 ∷ sets "b" 2 ∷ dels "a" ∷ sets "b" 3 ∷ []

-- A map with one entry in each half, one deletion before the old half is worn.
abbrev worn : ShrinkableMap String ℕ
worn = record {
  deletion_old = 9999;
  deletion_new = 7;
  dirty_old = ("a", 1) ∷ ("c", 3) ∷ [];
  dirty_new = ("b", 2) ∷ [];
}

-- The deletion that wears the old half out moves what is left of it.
del_moves : del worn "a" ≡ record {
  deletion_old = 7;
  deletion_new = 0;
  dirty_old = ("b", 2) ∷ ("c", 3) ∷ [];
  dirty_new = [];
}
unfolding del merge insert delete lookup
del_moves = refl

one_entry : ShrinkableMap String ℕ
one_entry = set new_shrink_map "a" 1

get-run_example : get (run new_shrink_map calls) "b" ≡ recall calls "b" none
get-run_example = get-run calls "b"
