-- ===== src/State/Node/Refines.antt =====
-- A register refines a map of nodes: adding a new node, changing a node's weight and removing a node do
-- to the stored totals what they do to the map.
use topia.Base.{
  ℕ, ◌+◌, ◌<◌, ◌≡◌, ◌≢◌, refl, sym, ◌∙◌, ap, subst, String, inl, inr, List, [], ◌∷◌, ◌++◌, Option,
  none, some, arith, Bool-cases,
}
use topia.Base.Eq.{◌==◌, ==_iff, string_eq}
use topia.Base.Map.{Map, lookup, insert, Distinct, lookup-insert, Distinct-insert}
use topia.Base.Words.{i64_sign}
use topia.State.Store.Laws.{Holds, put_lem}
use topia.State.Node.{NodeInfo, Stored, info_json, ids_json, weight_bytes, Store, add_node}
use topia.State.Node.Totals.{
  Nodes, ids_of, weight_sum, encoded, Register, IsProper, Represents, Registered,
}
use topia.State.Node.Parts.{IdsBefore, WeightBefore, add_id_lem, add_weight_lem}
use topia.State.Node.Sums.{ids_of-insert_new, weight_sum-insert_new, weight_sum-insert_old}

-- The contents of a register's store after its three writes.
unfoldable pub written : Register → Map String Stored → List String → ℕ → Map String Stored
written r m ids total = insert r.weight_key (weight_bytes total) (insert r.ids_key (ids_json ids) m)

-- Each node stands under its own id.
abbrev pub OwnIds : Nodes → Type 0
OwnIds nodes = (id : String) (i : NodeInfo) → lookup id nodes ≡ some i → i.node_id ≡ id

pub OwnIds-insert :
    (id : String) (i : NodeInfo) (nodes : Nodes)
    → i.node_id ≡ id
    → OwnIds nodes
    → OwnIds (insert id i nodes)
OwnIds-insert id i nodes mine own j k e = elim (Bool-cases (id == j)) [
  | inl hit ↦
      let same : i ≡ k = ground (arith, lookup-insert id j i nodes) in
      ap (λ n. n.node_id) (sym same) ∙ mine ∙ (==_iff id j).0 hit
  | inr miss ↦ own j k (ground (arith, lookup-insert id j i nodes))
]

-- Where the node part of the store and the totals are right, the store represents the nodes.
pub written-Represents :
    (r : Register) (m : Map String Stored) (nodes : Nodes) (ids : List String) (total : ℕ)
    → ids_of nodes ≡ ids
    → weight_sum nodes ≡ total
    → Distinct nodes
    → Distinct m
    → ((id : String) → IsProper r id → lookup id m ≡ encoded (lookup id nodes))
    → OwnIds nodes
    → weight_sum nodes < i64_sign
    → Represents r (written r m ids total) nodes
unfolding written
written-Represents r m nodes ids total ids_right total_right d k s o b =
    let m1 = insert r.ids_key (ids_json ids) m in
    let outer = λ (key : String). lookup-insert r.weight_key key (weight_bytes total) m1 in
    let inner = λ (key : String). lookup-insert r.ids_key key (ids_json ids) m in
    record {
      distinct = d;
      keys = Distinct-insert _ _ m1 (Distinct-insert _ _ m k);
      stored = λ id p. ground (
        arith,
        outer id,
        inner id,
        p.not_ids,
        p.not_weight,
        ==_iff r.weight_key id,
        ==_iff r.ids_key id,
        s id p,
      );
      own_id = o;
      totals = inr (
        rw ids_right (
            ground (
              arith,
              outer r.ids_key,
              inner r.ids_key,
              r.apart,
              ==_iff r.weight_key r.ids_key,
              ==_iff r.ids_key r.ids_key,
            )),
        rw total_right (ground (arith, outer r.weight_key, ==_iff r.weight_key r.weight_key)),
      );
      bounded = b;
    }

-- The totals before a node is added.
before :
    (r : Register) (m : Map String Stored) (nodes : Nodes)
    → Represents r m nodes
    → IdsBefore (lookup r.ids_key m) (ids_of nodes)
      × WeightBefore (lookup r.weight_key m) (weight_sum nodes)
before r m nodes v = elim v.totals [
  | inl (empty, a, b) ↦ (inr (a, ap ids_of empty), inr (b, ap weight_sum empty))
  | inr (a, b) ↦ (inl a, inl b)
]

-- A write under a node's id leaves the totals.
pub apart_from :
    (r : Register) (id : String) (v : Stored) (m : Map String Stored)
    → IsProper r id
    → (lookup r.ids_key (insert id v m) ≡ lookup r.ids_key m)
      × (lookup r.weight_key (insert id v m) ≡ lookup r.weight_key m)
apart_from r id v m p = (
  ground (arith, lookup-insert id r.ids_key v m, ==_iff id r.ids_key, p.not_ids),
  ground (arith, lookup-insert id r.weight_key v m, ==_iff id r.weight_key, p.not_weight),
)

-- `addNode` of a node whose id is new, with the sum of the weights below 2 ^ 63, succeeds and adds the node
-- to those of the register, its id to the end of the list and its weight to the total; no other store
-- changes.
pub add_node-Registered :
    (r : Register) (st : Store) (nodes : Nodes) (i : NodeInfo)
    → Registered r st nodes
    → IsProper r i.node_id
    → lookup i.node_id nodes ≡ none
    → weight_sum nodes + i.weight < i64_sign
    → (st' : Store) × (add_node st r.name r.ids_key r.weight_key (some i) ≡ (st', none))
      × Registered r st' (insert i.node_id i nodes)
      × ((other : String) → other ≢ r.name → lookup other st'.store_map ≡ lookup other st.store_map)
unfolding add_node written
add_node-Registered r st nodes i (m, h, v) p new small =
    let id = i.node_id in
    let nodes' = insert id i nodes in
    let m1 = insert id (info_json i) m in
    let (st1, w1, b1) = put_lem st r.name id (info_json i) m h p.named in
    let (ids_same, weight_same) = apart_from r id (info_json i) m p in
    let (ids_then, weight_then) = before r m nodes v in
    let ids_new = ids_of-insert_new id i nodes new in
    let sum_new = weight_sum-insert_new id i nodes new in
    let (st2, w2, b2) =
      add_id_lem r st1 m1 (ids_of nodes) id b1.holds
        (subst (λ (o : Option Stored). IdsBefore o (ids_of nodes)) (sym ids_same) ids_then) in
    let m2 = insert r.ids_key (ids_json (ids_of nodes ++ id ∷ [])) m1 in
    let weight_there : lookup r.weight_key m2 ≡ lookup r.weight_key m = ground (
      arith,
      lookup-insert r.ids_key r.weight_key (ids_json (ids_of nodes ++ id ∷ [])) m1,
      r.apart,
      ==_iff r.ids_key r.weight_key,
      weight_same,
    ) in
    let (st3, w3, b3) =
      add_weight_lem r st2 m2 (weight_sum nodes) i.weight b2.holds
        (subst (λ (o : Option Stored). WeightBefore o (weight_sum nodes)) (sym weight_there)
          weight_then)
        small in
    let represents =
      written-Represents r m1 nodes' (ids_of nodes ++ id ∷ []) (weight_sum nodes + i.weight) ids_new
        sum_new (Distinct-insert id i nodes v.distinct) (Distinct-insert id (info_json i) m v.keys)
        (λ j q.
          ground
            (arith, lookup-insert id j (info_json i) m, lookup-insert id j i nodes, v.stored j q))
        (OwnIds-insert id i nodes refl v.own_id) (omega (arith, sum_new, small)) in
    (
      st3,
      rw (w1, w2) w3,
      (_, b3.holds, represents),
      (λ other n. b3.others other n ∙ b2.others other n ∙ b1.others other n),
    )

-- `addNode` of a node whose id the register already has succeeds as well: it overwrites the node, but puts
-- its id into the list once more, and adds its weight to a total that still counts the old one.
pub add_node_again_lem :
    (r : Register) (st : Store) (nodes : Nodes) (i old : NodeInfo)
    → Registered r st nodes
    → IsProper r i.node_id
    → lookup i.node_id nodes ≡ some old
    → weight_sum nodes + i.weight < i64_sign
    → (st' : Store) × (m' : Map String Stored) × (add_node st r.name r.ids_key r.weight_key (some i)
        ≡ (st', none))
      × Holds st' r.name m'
      × (lookup r.ids_key m' ≡ some (ids_json (ids_of nodes ++ i.node_id ∷ [])))
      × (lookup r.weight_key m'
          ≡ some (weight_bytes (weight_sum (insert i.node_id i nodes) + old.weight)))
unfolding add_node written
add_node_again_lem r st nodes i old (m, h, v) p there small =
    let id = i.node_id in
    let m1 = insert id (info_json i) m in
    let ids = ids_of nodes ++ id ∷ [] in
    let total = weight_sum nodes + i.weight in
    let (st1, w1, b1) = put_lem st r.name id (info_json i) m h p.named in
    let (ids_same, weight_same) = apart_from r id (info_json i) m p in
    let (ids_then, weight_then) = before r m nodes v in
    let (st2, w2, b2) =
      add_id_lem r st1 m1 (ids_of nodes) id b1.holds
        (subst (λ (o : Option Stored). IdsBefore o (ids_of nodes)) (sym ids_same) ids_then) in
    let m2 = insert r.ids_key (ids_json ids) m1 in
    let inner = lookup-insert r.ids_key r.weight_key (ids_json ids) m1 in
    let weight_there : lookup r.weight_key m2 ≡ lookup r.weight_key m =
      ground (arith, inner, r.apart, ==_iff r.ids_key r.weight_key, weight_same) in
    let (st3, w3, b3) =
      add_weight_lem r st2 m2 (weight_sum nodes) i.weight b2.holds
        (subst (λ (o : Option Stored). WeightBefore o (weight_sum nodes)) (sym weight_there)
          weight_then)
        small in
    let outer = λ (key : String). lookup-insert r.weight_key key (weight_bytes total) m2 in
    let twice : weight_sum (insert id i nodes) + old.weight ≡ total =
      weight_sum-insert_old id i old nodes there in
    (
      st3,
      written r m1 ids total,
      rw (w1, w2) w3,
      b3.holds,
      ground (
        arith,
        outer r.ids_key,
        lookup-insert r.ids_key r.ids_key (ids_json ids) m1,
        r.apart,
        ==_iff r.weight_key r.ids_key,
        ==_iff r.ids_key r.ids_key,
      ),
      rw twice (ground (arith, outer r.weight_key, ==_iff r.weight_key r.weight_key)),
    )
