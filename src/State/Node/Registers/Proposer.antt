-- ===== src/State/Node/Registers/Proposer.antt =====
-- state/node/node_proposer.go: the register of the active proposers.
use topia.Base.{ℕ, String, Bool, List, Option, ◌⊎◌}
use topia.State.Store.{Written, get_state_data, get_all_state_data, add_named_state_store}
use topia.State.Node.{
  NodeInfo, Stored, Store, Error, is_node_exist, get_node, add_node, update_weight,
  update_dkg_part_pub_key, update_dkg_pri_share,
}
use topia.State.Node.Registers.{ids_or_nil, weight_or_zero, all_nodes, remove_found}

abbrev pub proposer_store_name : String
proposer_store_name = "proposer"

abbrev pub proposer_ids_key : String
proposer_ids_key = "totalapnodeids"

abbrev pub proposer_weight_key : String
proposer_weight_key = "totalapweight"

unfoldable pub new_node_proposer_state : Store → Store
new_node_proposer_state st = add_named_state_store st proposer_store_name

unfoldable pub is_exist_active_proposer : Store → String → Bool
is_exist_active_proposer st node_id = is_node_exist st proposer_store_name node_id

unfoldable pub get_active_proposer_ids : Store → Error ⊎ List String
get_active_proposer_ids st = ids_or_nil (get_state_data st proposer_store_name proposer_ids_key)

unfoldable pub get_active_proposer : Store → String → Error ⊎ Option NodeInfo
get_active_proposer st node_id = get_node st proposer_store_name node_id

unfoldable pub get_active_proposers_total_weight : Store → Error ⊎ ℕ
get_active_proposers_total_weight st =
    weight_or_zero (get_state_data st proposer_store_name proposer_weight_key)

unfoldable pub get_all_active_proposers : Store → Error ⊎ List NodeInfo
get_all_active_proposers st =
    all_nodes proposer_ids_key proposer_weight_key (get_all_state_data st proposer_store_name)

unfoldable pub add_active_proposer : Store → Option NodeInfo → Written Stored
add_active_proposer st i = add_node st proposer_store_name proposer_ids_key proposer_weight_key i

unfoldable pub update_active_proposer_weight : Store → String → ℕ → Written Stored
update_active_proposer_weight st node_id weight =
    update_weight st proposer_store_name node_id proposer_weight_key weight

unfoldable pub update_active_proposer_dkg_part_pub_key : Store → String → String → Written Stored
update_active_proposer_dkg_part_pub_key st node_id pub_key =
    update_dkg_part_pub_key st proposer_store_name node_id pub_key

unfoldable pub update_active_proposer_dkg_pri_share : Store → String → String → Written Stored
update_active_proposer_dkg_pri_share st node_id pri_share =
    update_dkg_pri_share st proposer_store_name node_id pri_share

unfoldable pub remove_active_proposer : Store → String → Written Stored
remove_active_proposer st node_id =
    remove_found st proposer_store_name proposer_ids_key proposer_weight_key node_id
      (get_active_proposer st node_id)
