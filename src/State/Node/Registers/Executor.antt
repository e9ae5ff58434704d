-- ===== src/State/Node/Registers/Executor.antt =====
-- state/node/node_executor.go: the register of the active executors.
use topia.Base.{ℕ, String, Bool, List, Option, ◌⊎◌}
use topia.State.Store.{Written, get_state_data, get_all_state_data, add_named_state_store}
use topia.State.Node.{
  NodeInfo, Stored, Store, Error, is_node_exist, get_node, add_node, update_weight,
  update_dkg_part_pub_key, update_dkg_pri_share,
}
use topia.State.Node.Registers.{ids_or_nil, weight_or_zero, all_nodes, remove_found}

abbrev pub executor_store_name : String
executor_store_name = "executor"

abbrev pub executor_ids_key : String
executor_ids_key = "totalaenodeids"

abbrev pub executor_weight_key : String
executor_weight_key = "totalaeweight"

unfoldable pub new_node_executor_state : Store → Store
new_node_executor_state st = add_named_state_store st executor_store_name

unfoldable pub is_exist_active_executor : Store → String → Bool
is_exist_active_executor st node_id = is_node_exist st executor_store_name node_id

unfoldable pub get_active_executor_ids : Store → Error ⊎ List String
get_active_executor_ids st = ids_or_nil (get_state_data st executor_store_name executor_ids_key)

unfoldable pub get_active_executor : Store → String → Error ⊎ Option NodeInfo
get_active_executor st node_id = get_node st executor_store_name node_id

unfoldable pub get_active_executors_total_weight : Store → Error ⊎ ℕ
get_active_executors_total_weight st =
    weight_or_zero (get_state_data st executor_store_name executor_weight_key)

unfoldable pub get_all_active_executors : Store → Error ⊎ List NodeInfo
get_all_active_executors st =
    all_nodes executor_ids_key executor_weight_key (get_all_state_data st executor_store_name)

unfoldable pub add_active_executor : Store → Option NodeInfo → Written Stored
add_active_executor st i = add_node st executor_store_name executor_ids_key executor_weight_key i

unfoldable pub update_active_executor_weight : Store → String → ℕ → Written Stored
update_active_executor_weight st node_id weight =
    update_weight st executor_store_name node_id executor_weight_key weight

unfoldable pub update_active_executor_dkg_part_pub_key : Store → String → String → Written Stored
update_active_executor_dkg_part_pub_key st node_id pub_key =
    update_dkg_part_pub_key st executor_store_name node_id pub_key

unfoldable pub update_active_executor_dkg_pri_share : Store → String → String → Written Stored
update_active_executor_dkg_pri_share st node_id pri_share =
    update_dkg_pri_share st executor_store_name node_id pri_share

unfoldable pub remove_active_executor : Store → String → Written Stored
remove_active_executor st node_id =
    remove_found st executor_store_name executor_ids_key executor_weight_key node_id
      (get_active_executor st node_id)
