-- ===== src/State/Node/Tests.antt =====
-- Runs of a register of nodes, and its theorems at concrete registers.
use topia.Base.{◌+◌, ◌<◌, ◌≡◌, ◌≢◌, refl, inl, inr, String, false, List, [], ◌∷◌, none, some, arith}
use topia.Base.Eq.{==_iff, string_eq}
use topia.Base.Map.{lookup, insert}
use topia.Base.Words.{i64_sign}
use topia.State.Node.{NodeInfo, Store, add_node}
use topia.State.Node.Totals.{Register, IsProper, Registered, ids_of, weight_sum}
use topia.State.Node.Refines.{add_node-Registered}
use topia.State.Store.{get_state_data}
use topia.State.Node.Registers.{weight_or_zero, ids_or_nil}
use topia.State.Node.Runs.{
  Call, adds, weighs, removes, call_all, meaning_all, AllAllowed, add_new, weigh_known,
  remove_known, call_all-totals,
}
use topia.State.Node.Registers.Executor.{executor_store_name, executor_ids_key, executor_weight_key}

abbrev executors : Register
executors = record {
  name = executor_store_name;
  ids_key = executor_ids_key;
  weight_key = executor_weight_key;
  ids_named = λ e. ground (arith, (==_iff executor_ids_key "").1 e);
  weight_named = λ e. ground (arith, (==_iff executor_weight_key "").1 e);
  apart = λ e. ground (arith, (==_iff executor_ids_key executor_weight_key).1 e);
}

abbrev node_a : NodeInfo
node_a = record {
  node_id = "a";
  address = "addr";
  weight = 10;
  dkg_part_pub_key = "pk";
  dkg_pri_share = "ps";
  role = 1;
  state = 2;
}

abbrev a_name : String
a_name = "a"

abbrev empty_store : Store
empty_store = record { read_only = false; store_map = ("executor", []) ∷ [] }

empty-Registered : Registered executors empty_store []
unfolding lookup
empty-Registered = (
  [],
  (refl, refl),
  record {
    distinct = tt;
    keys = tt;
    stored = λ id p. refl;
    own_id = λ id i e. ground (arith, e);
    totals = inl (refl, refl, refl);
    bounded = omega arith;
  },
)

a-IsProper : IsProper executors "a"
a-IsProper = record {
  named = λ e. ground (arith, (==_iff a_name "").1 e);
  not_ids = λ e. ground (arith, (==_iff a_name executor_ids_key).1 e);
  not_weight = λ e. ground (arith, (==_iff a_name executor_weight_key).1 e);
}

a_is_added :
    (st' : Store) × (add_node empty_store "executor" "totalaenodeids" "totalaeweight" (some node_a)
      ≡ (st', none))
    × Registered executors st' (insert a_name node_a [])
    × ((other : String)
        → other ≢ "executor"
        → lookup other st'.store_map ≡ lookup other empty_store.store_map)
unfolding lookup
a_is_added =
    add_node-Registered executors empty_store [] node_a empty-Registered a-IsProper refl
      (omega arith)

-- The store with the one node.
with_a : (st' : Store) × Registered executors st' (insert a_name node_a [])
with_a = (a_is_added.0, a_is_added.2)

a_there : lookup a_name (insert a_name node_a []) ≡ some node_a
unfolding lookup insert
a_there = refl

a_bounded : weight_sum (insert a_name node_a []) + 10 < i64_sign
unfolding insert
a_bounded = omega arith

a_bounded_change : weight_sum (insert a_name node_a []) + 7 < i64_sign + 10
unfolding insert
a_bounded_change = omega arith

-- Node a is added, its weight changed, and it is removed.
abbrev calls : List Call
calls = adds node_a ∷ weighs a_name 7 ∷ removes a_name ∷ []

calls_allowed : AllAllowed executors [] calls
unfolding lookup insert
calls_allowed = (
  add_new node_a a-IsProper refl (omega arith),
  (
    weigh_known a_name node_a 7 a-IsProper refl (omega arith),
    (remove_known a_name (record node_a { weight = 7 }) a-IsProper refl, tt),
  ),
)

call_all-totals_example :
    (weight_or_zero
        (get_state_data (call_all executors empty_store calls) "executor" "totalaeweight")
      ≡ inr (weight_sum (meaning_all [] calls)))
    × (ids_or_nil
          (get_state_data (call_all executors empty_store calls) "executor" "totalaenodeids")
        ≡ inr (ids_of (meaning_all [] calls)))
call_all-totals_example =
    call_all-totals executors empty_store [] calls empty-Registered calls_allowed
