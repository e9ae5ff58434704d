-- ===== src/State/Node.antt =====
-- state/node/common.go: a register of nodes in a named store. Beside the nodes, under their ids, it keeps
-- the list of the ids and the total weight under two keys of its own. A stored value is modelled by what
-- the source encodes: encoding/json and binary.BigEndian read back what they wrote, and do not read a
-- value of another kind. int64 arithmetic is written out on uint64.
pub mod Registers
pub mod Router
pub mod Totals
pub mod Parts
pub mod Sums
pub mod Refines
pub mod Changes
pub mod Routes
pub mod Routing
pub mod Overall
pub mod Runs
mod RouterTests
mod Tests
use topia.Base.{
  ℕ, ◌+◌, String, Bool, true, false, List, [], ◌∷◌, ◌++◌, map, Option, none, some, ◌⊎◌, inl, inr,
  ltb, if◌then◌else◌,
}
use topia.Base.Eq.{◌==◌, string_eq}
use topia.Base.Map.{is_some}
use topia.Base.Words.{add_u64, sub_u64, neg_u64, is_neg_i64}
use topia.State.Store.{
  StateStore, StateError, malformed, nil_pointer, short_bytes, nil_node_info, Written, and_then,
  put, update, delete_key, exists, get_state_data, get_all_state_data,
}

-- NodeRole is a uint64 and NodeState a byte in the source.
pub record NodeInfo : Type 0 where
  pub node_id : String
  pub address : String
  pub weight : ℕ
  pub dkg_part_pub_key : String
  pub dkg_pri_share : String
  pub role : ℕ
  pub state : ℕ

pub record NodeStateMetaInfo : Type 0 where
  pub role : ℕ
  pub state : ℕ

-- What is stored: an encoded node, a list of ids, a weight in 8 bytes, a node's role and state.
pub data Stored : Type 0 where
  info_json : NodeInfo → Stored
  ids_json : List String → Stored
  weight_bytes : ℕ → Stored
  meta_json : NodeStateMetaInfo → Stored

abbrev pub Store : Type 0
Store = StateStore Stored

abbrev pub Error : Type 0
Error = StateError

-- `isNodeExist` and the other callers that drop the error: an error reads as false.
abbrev pub or_false : Error ⊎ Bool → Bool
or_false (inl e) = false
or_false (inr b) = b

unfoldable pub is_node_exist : Store → String → String → Bool
is_node_exist st name node_id = or_false (exists st name node_id)

abbrev pub read_node : Error ⊎ Option Stored → Error ⊎ Option NodeInfo
read_node (inl e) = inl e
read_node (inr none) = inr none
read_node (inr (some (info_json i))) = inr (some i)
read_node (inr (some v)) = inl malformed

-- A node that is not there reads as nil, without an error.
unfoldable pub get_node : Store → String → String → Error ⊎ Option NodeInfo
get_node st name node_id = read_node (get_state_data st name node_id)

abbrev pub read_ids : Error ⊎ Option Stored → Error ⊎ List String
read_ids (inl e) = inl e
read_ids (inr (some (ids_json ids))) = inr ids
read_ids (inr v) = inl malformed

abbrev pub read_weight : Error ⊎ Option Stored → Error ⊎ ℕ
read_weight (inl e) = inl e
read_weight (inr (some (weight_bytes w))) = inr w
read_weight (inr v) = inl short_bytes

-- common/util.go: every occurrence goes.
unfoldable pub remove_if_exist_string : String → List String → List String
remove_if_exist_string target [] = []
remove_if_exist_string target (x ∷ xs) =
    let rest = remove_if_exist_string target xs in if x == target then rest else x ∷ rest

abbrev pub write_ids :
    Store → String → String → (List String → List String) → Error ⊎ List String → Written Stored
write_ids st name key change (inl e) = (st, some e)
write_ids st name key change (inr ids) = update st name key (ids_json (change ids))

unfoldable pub update_total_ids : Store → String → String → String → Bool → Written Stored
update_total_ids st name total_ids_key node_id is_remove =
    write_ids st name total_ids_key
      (λ ids. if is_remove then remove_if_exist_string node_id ids else ids ++ node_id ∷ [])
      (read_ids (get_state_data st name total_ids_key))

-- int64(total) + delta, not below 0.
abbrev pub total_plus : ℕ → ℕ → ℕ
total_plus total delta = let sum = add_u64 total delta in if is_neg_i64 sum then 0 else sum

abbrev pub write_weight : Store → String → String → ℕ → Error ⊎ ℕ → Written Stored
write_weight st name key delta (inl e) = (st, some e)
write_weight st name key delta (inr total) =
    update st name key (weight_bytes (total_plus total delta))

unfoldable pub update_total_weight : Store → String → String → ℕ → Written Stored
update_total_weight st name total_weight_key delta =
    write_weight st name total_weight_key delta
      (read_weight (get_state_data st name total_weight_key))

-- The two later parts of `addNode`.
unfoldable pub add_id : Store → String → String → String → Written Stored
unfolding update_total_ids
add_id st name total_ids_key node_id =
    if or_false (exists st name total_ids_key)
    then update_total_ids st name total_ids_key node_id false
    else put st name total_ids_key (ids_json (node_id ∷ []))

unfoldable pub add_weight : Store → String → String → ℕ → Written Stored
unfolding update_total_weight
add_weight st name total_weight_key weight =
    if or_false (exists st name total_weight_key)
    then update_total_weight st name total_weight_key weight
    else put st name total_weight_key (weight_bytes weight)

unfoldable pub add_node : Store → String → String → String → Option NodeInfo → Written Stored
unfolding add_id add_weight
add_node st name total_ids_key total_weight_key none = (st, some nil_node_info)
add_node st name total_ids_key total_weight_key (some i) =
    and_then (put st name i.node_id (info_json i)) λ st1.
      and_then (add_id st1 name total_ids_key i.node_id)
        λ st2. add_weight st2 name total_weight_key i.weight

-- The three updates of a node: a node that is not there is a nil pointer that is followed.
abbrev pub write_node :
    Store
    → String
    → (NodeInfo → NodeInfo)
    → (NodeInfo → Store → Written Stored)
    → Error ⊎ Option NodeInfo
    → Written Stored
write_node st name change rest (inl e) = (st, some e)
write_node st name change rest (inr none) = (st, some nil_pointer)
write_node st name change rest (inr (some i)) =
    and_then (update st name i.node_id (info_json (change i))) (rest i)

unfoldable pub update_weight : Store → String → String → String → ℕ → Written Stored
unfolding update_total_weight
update_weight st name node_id total_weight_key weight =
    write_node st name (λ i. record i { weight = weight })
      (λ i st1. update_total_weight st1 name total_weight_key (sub_u64 weight i.weight))
      (get_node st name node_id)

unfoldable pub update_dkg_part_pub_key : Store → String → String → String → Written Stored
update_dkg_part_pub_key st name node_id pub_key =
    write_node st name (λ i. record i { dkg_part_pub_key = pub_key }) (λ i st1. (st1, none))
      (get_node st name node_id)

unfoldable pub update_dkg_pri_share : Store → String → String → String → Written Stored
update_dkg_pri_share st name node_id pri_share =
    write_node st name (λ i. record i { dkg_pri_share = pri_share }) (λ i st1. (st1, none))
      (get_node st name node_id)

unfoldable pub drop_id : Store → String → String → String → Written Stored
unfolding update_total_ids
drop_id st name total_ids_key node_id =
    if or_false (exists st name total_ids_key)
    then update_total_ids st name total_ids_key node_id true
    else (st, none)

unfoldable pub drop_weight : Store → String → String → ℕ → Written Stored
unfolding update_total_weight
drop_weight st name total_weight_key weight =
    if or_false (exists st name total_weight_key)
    then update_total_weight st name total_weight_key (neg_u64 weight)
    else (st, none)

unfoldable pub remove_node : Store → String → String → String → String → ℕ → Written Stored
unfolding drop_id drop_weight
remove_node st name total_ids_key total_weight_key node_id weight =
    and_then (delete_key st name node_id) λ st1.
      and_then (drop_id st1 name total_ids_key node_id)
        λ st2. drop_weight st2 name total_weight_key weight
