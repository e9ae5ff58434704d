-- ===== src/State/Node/Registers.antt =====
-- The reads that the four registers of state/node share: the active executors, proposers and validators
-- and the inactive nodes, each in a module of its own.
pub mod Executor
pub mod Proposer
pub mod Validator
pub mod Inactive
use topia.Base.{
  ℕ, String, Bool, List, [], ◌∷◌, Option, none, some, ◌⊎◌, inl, inr, ◌||◌, if◌then◌else◌,
}
use topia.Base.Eq.{◌==◌, string_eq}
use topia.State.Store.{malformed, short_bytes, Written}
use topia.State.Node.{
  NodeInfo, Stored, info_json, ids_json, weight_bytes, Store, Error, remove_node,
}

-- No list of ids is an empty one.
abbrev pub ids_or_nil : Error ⊎ Option Stored → Error ⊎ List String
ids_or_nil (inl e) = inl e
ids_or_nil (inr none) = inr []
ids_or_nil (inr (some (ids_json ids))) = inr ids
ids_or_nil (inr (some v)) = inl malformed

abbrev pub weight_or_zero : Error ⊎ Option Stored → Error ⊎ ℕ
weight_or_zero (inl e) = inl e
weight_or_zero (inr none) = inr 0
weight_or_zero (inr (some (weight_bytes w))) = inr w
weight_or_zero (inr (some v)) = inl short_bytes

abbrev pub with_node : Stored → Error ⊎ List NodeInfo → Error ⊎ List NodeInfo
with_node (info_json i) (inr is) = inr (i ∷ is)
with_node (info_json i) (inl e) = inl e
with_node v is = inl malformed

-- The loop over all keys and values, without the two keys of the totals.
unfoldable pub decode_nodes : String → String → List (String × Stored) → Error ⊎ List NodeInfo
decode_nodes ids_key weight_key [] = inr []
decode_nodes ids_key weight_key ((key, v) ∷ rest) =
    let others = decode_nodes ids_key weight_key rest in
    if (key == ids_key) || (key == weight_key) then others else with_node v others

abbrev pub all_nodes : String → String → Error ⊎ List (String × Stored) → Error ⊎ List NodeInfo
all_nodes ids_key weight_key (inl e) = inl e
all_nodes ids_key weight_key (inr entries) = decode_nodes ids_key weight_key entries

-- An error and a node that is not there are both taken for a removal that is done.
abbrev pub remove_found :
    Store → String → String → String → String → Error ⊎ Option NodeInfo → Written Stored
remove_found st name ids_key weight_key node_id (inl e) = (st, none)
remove_found st name ids_key weight_key node_id (inr none) = (st, none)
remove_found st name ids_key weight_key node_id (inr (some i)) =
    remove_node st name ids_key weight_key node_id i.weight
