-- ===== src/State/Node/RouterTests.antt =====
-- The router over an empty state and a state with one executor, and its theorems there.
use topia.Base.{◌+◌, ◌<◌, ◌≡◌, refl, String, false, [], ◌∷◌, none, some, inl, arith}
use topia.Base.Eq.{==_iff, string_eq}
use topia.Base.Map.{lookup, insert}
use topia.State.Node.{NodeInfo, Store}
use topia.State.Node.Totals.{Nodes, Register, IsProper, Registered, weight_sum}
use topia.State.Node.Router.{add_node_info}
use topia.State.Node.Routes.{
  Kind, executors, proposers, validators, inactives, register_of, register_with, with_nodes, Routed,
}
use topia.State.Node.Routing.{add_node_info-Routed}

abbrev node_b : NodeInfo
node_b = record {
  node_id = "b";
  address = "addr";
  weight = 10;
  dkg_part_pub_key = "pk";
  dkg_pri_share = "ps";
  role = 1;
  state = 2;
}

abbrev b_name : String
b_name = "b"

abbrev no_nodes : Kind → Nodes
no_nodes k = []

abbrev empty_state : Store
empty_state = record {
  read_only = false;
  store_map =
      ("executor", [])
      ∷ ("proposer", [])
      ∷ ("validator", [])
      ∷ ("nodeinactive", [])
      ∷ ("node", [])
      ∷ [];
}

empty_register :
    (r : Register) → lookup r.name empty_state.store_map ≡ some [] → Registered r empty_state []
unfolding lookup
empty_register r there = (
  [],
  (refl, there),
  record {
    distinct = tt;
    keys = tt;
    stored = λ id p. refl;
    own_id = λ id i e. ground (arith, e);
    totals = inl (refl, refl, refl);
    bounded = omega arith;
  },
)

every_register : (k : Kind) → Registered (register_of k) empty_state []
unfolding lookup register_of register_with
every_register executors = empty_register (register_of executors) refl
every_register proposers = empty_register (register_of proposers) refl
every_register validators = empty_register (register_of validators) refl
every_register inactives = empty_register (register_of inactives) refl

empty-Routed : Routed empty_state no_nodes
unfolding lookup
empty-Routed = record {
  registered = every_register;
  routes = ([], (refl, refl), λ id k i e. ground (arith, e));
}

b-IsProper : IsProper (register_of executors) "b"
unfolding register_of register_with
b-IsProper = record {
  named = λ e. ground (arith, (==_iff b_name "").1 e);
  not_ids = λ e. ground (arith, (==_iff b_name "totalaenodeids").1 e);
  not_weight = λ e. ground (arith, (==_iff b_name "totalaeweight").1 e);
}

abbrev one_executor : Kind → Nodes
one_executor = with_nodes executors (insert b_name node_b []) no_nodes

add_node_info-Routed_example :
    (st' : Store) × (add_node_info empty_state (some node_b) ≡ (st', none))
    × Routed st' one_executor
unfolding lookup
add_node_info-Routed_example =
    add_node_info-Routed empty_state no_nodes executors node_b empty-Routed refl b-IsProper
      (λ k'. refl) (omega arith)

with_b : (st' : Store) × Routed st' one_executor
with_b = (add_node_info-Routed_example.0, add_node_info-Routed_example.2)

b_there : lookup b_name (one_executor executors) ≡ some node_b
unfolding lookup insert register_of register_with
b_there = refl

b_alone : (k' : Kind) (n : NodeInfo) → lookup b_name (one_executor k') ≡ some n → executors ≡ k'
unfolding lookup insert register_of register_with
b_alone executors n e = refl
b_alone proposers n e = ground (arith, e)
b_alone validators n e = ground (arith, e)
b_alone inactives n e = ground (arith, e)

small_change : weight_sum (one_executor executors) + 7 < 9223372036854775808 + 10
unfolding insert register_of register_with
small_change = omega arith

small_total :
    weight_sum (one_executor executors)
      + weight_sum (one_executor proposers)
      + weight_sum (one_executor validators)
    < 18446744073709551616
unfolding insert register_of register_with
small_total = omega arith
