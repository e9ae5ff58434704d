-- ===== src/State/Node/Totals.antt =====
-- The totals of a register: the list of ids and the total weight agree with the nodes that are there.
use topia.Base.{ℕ, ◌+◌, ◌<◌, ◌≡◌, ◌≢◌, String, ◌⊎◌, List, [], ◌∷◌, Option, none, some}
use topia.Base.Eq.{string_eq}
use topia.Base.Map.{Map, lookup, Distinct}
use topia.Base.Words.{i64_sign}
use topia.State.Store.Laws.{Holds}
use topia.State.Node.{NodeInfo, Stored, info_json, ids_json, weight_bytes, Store}

abbrev pub Nodes : Type 0
Nodes = Map String NodeInfo

abbrev pub ids_of : Nodes → List String
ids_of [] = []
ids_of ((k, i) ∷ nodes) = k ∷ ids_of nodes

abbrev pub weight_sum : Nodes → ℕ
weight_sum [] = 0
weight_sum ((k, i) ∷ nodes) = i.weight + weight_sum nodes

abbrev pub encoded : Option NodeInfo → Option Stored
encoded none = none
encoded (some i) = some (info_json i)

-- The name of a register's store and the two keys of its totals.
pub record Register : Type 0 where
  pub name : String
  pub ids_key : String
  pub weight_key : String
  pub ids_named : ids_key ≢ ""
  pub weight_named : weight_key ≢ ""
  pub apart : ids_key ≢ weight_key

-- A node's id that is not empty, and not one of the register's own keys.
pub record IsProper (r : Register) (id : String) : Type 0 where
  pub named : id ≢ ""
  pub not_ids : id ≢ r.ids_key
  pub not_weight : id ≢ r.weight_key

-- The totals of these nodes; a register that never had a node has none.
abbrev pub Totals : Register → Map String Stored → Nodes → Type 0
Totals r m nodes =
    ((nodes ≡ []) × (lookup r.ids_key m ≡ none) × (lookup r.weight_key m ≡ none))
    ⊎ ((lookup r.ids_key m ≡ some (ids_json (ids_of nodes)))
        × (lookup r.weight_key m ≡ some (weight_bytes (weight_sum nodes))))

-- The store's contents are those of a register with these nodes: each under its id, with the list of
-- their ids and the sum of their weights, which is below 2 ^ 63.
pub record Represents (r : Register) (m : Map String Stored) (nodes : Nodes) : Type 0 where
  pub distinct : Distinct nodes
  pub keys : Distinct m
  pub stored : (id : String) → IsProper r id → lookup id m ≡ encoded (lookup id nodes)
  pub own_id : (id : String) (i : NodeInfo) → lookup id nodes ≡ some i → i.node_id ≡ id
  pub totals : Totals r m nodes
  pub bounded : weight_sum nodes < i64_sign

abbrev pub Registered : Register → Store → Nodes → Type 0
Registered r st nodes = (m : Map String Stored) × Holds st r.name m × Represents r m nodes
