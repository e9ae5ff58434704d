-- ===== src/State/Node/Registers/Inactive.antt =====
-- state/node/node_inactive.go: the register of the inactive nodes.
use topia.Base.{ℕ, String, Bool, List, Option, ◌⊎◌}
use topia.State.Store.{Written, get_state_data, get_all_state_data, add_named_state_store}
use topia.State.Node.{
  NodeInfo, Stored, Store, Error, is_node_exist, get_node, add_node, update_weight,
  update_dkg_part_pub_key, update_dkg_pri_share,
}
use topia.State.Node.Registers.{ids_or_nil, weight_or_zero, all_nodes, remove_found}

abbrev pub inactive_store_name : String
inactive_store_name = "nodeinactive"

abbrev pub inactive_ids_key : String
inactive_ids_key = "totalinnodeids"

abbrev pub inactive_weight_key : String
inactive_weight_key = "totalinweight"

unfoldable pub new_node_inactive_state : Store → Store
new_node_inactive_state st = add_named_state_store st inactive_store_name

unfoldable pub is_exist_inactive_node : Store → String → Bool
is_exist_inactive_node st node_id = is_node_exist st inactive_store_name node_id

unfoldable pub get_inactive_node_ids : Store → Error ⊎ List String
get_inactive_node_ids st = ids_or_nil (get_state_data st inactive_store_name inactive_ids_key)

unfoldable pub get_inactive_node : Store → String → Error ⊎ Option NodeInfo
get_inactive_node st node_id = get_node st inactive_store_name node_id

unfoldable pub get_inactive_nodes_total_weight : Store → Error ⊎ ℕ
get_inactive_nodes_total_weight st =
    weight_or_zero (get_state_data st inactive_store_name inactive_weight_key)

unfoldable pub get_all_inactive_nodes : Store → Error ⊎ List NodeInfo
get_all_inactive_nodes st =
    all_nodes inactive_ids_key inactive_weight_key (get_all_state_data st inactive_store_name)

unfoldable pub add_inactive_node : Store → Option NodeInfo → Written Stored
add_inactive_node st i = add_node st inactive_store_name inactive_ids_key inactive_weight_key i

unfoldable pub update_inactive_node_weight : Store → String → ℕ → Written Stored
update_inactive_node_weight st node_id weight =
    update_weight st inactive_store_name node_id inactive_weight_key weight

unfoldable pub update_inactive_node_dkg_part_pub_key : Store → String → String → Written Stored
update_inactive_node_dkg_part_pub_key st node_id pub_key =
    update_dkg_part_pub_key st inactive_store_name node_id pub_key

unfoldable pub update_inactive_node_dkg_pri_share : Store → String → String → Written Stored
update_inactive_node_dkg_pri_share st node_id pri_share =
    update_dkg_pri_share st inactive_store_name node_id pri_share

unfoldable pub remove_inactive_node : Store → String → Written Stored
remove_inactive_node st node_id =
    remove_found st inactive_store_name inactive_ids_key inactive_weight_key node_id
      (get_inactive_node st node_id)
