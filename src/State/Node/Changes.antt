-- ===== src/State/Node/Changes.antt =====
-- A register as a map of nodes: the change of a node's weight and the removal of a node.
use topia.Base.{
  ℕ, ◌+◌, ◌<◌, ◌≤◌, ◌≡◌, ◌≢◌, refl, sym, ◌∙◌, ap, subst, String, inl, inr, none, some, arith,
}
use topia.Base.Eq.{==_iff, string_eq}
use topia.Base.Map.{
  Map, lookup, insert, delete, Distinct, lookup-insert, lookup-delete, Distinct-insert,
  Distinct-delete,
}
use topia.Base.Words.{i64_sign, sub_u64, neg_u64}
use topia.State.Store.{update}
use topia.State.Store.Laws.{Holds, update_lem, delete_key_lem, get_state_data_lem}
use topia.State.Node.{
  NodeInfo, Stored, info_json, ids_json, weight_bytes, Store, get_node, update_weight, remove_node,
  remove_if_exist_string, total_plus,
}
use topia.State.Node.Totals.{
  Nodes, ids_of, weight_sum, encoded, Register, IsProper, Represents, Registered,
}
use topia.State.Node.Parts.{
  drop_id_lem, drop_weight_lem, update_total_weight_lem, total_plus-change, total_plus-removal,
}
use topia.State.Node.Sums.{
  ids_of-insert_old, weight_sum-insert_old, weight_sum-delete, remove_if_exist_string-ids_of,
}
use topia.State.Node.Refines.{OwnIds, OwnIds-insert, written, written-Represents, apart_from}

-- A register that has a node has totals.
present_totals :
    (r : Register) (m : Map String Stored) (nodes : Nodes) (id : String) (i : NodeInfo)
    → Represents r m nodes
    → lookup id nodes ≡ some i
    → (lookup r.ids_key m ≡ some (ids_json (ids_of nodes)))
      × (lookup r.weight_key m ≡ some (weight_bytes (weight_sum nodes)))
unfolding lookup
present_totals r m nodes id i v e = elim v.totals [
  | inr there ↦ there
  | inl (empty, a, b) ↦
      let gone : none ≡ some i = sym (ap (lookup id) empty) ∙ e in ground (arith, gone)
]

pub found_node :
    (r : Register) (st : Store) (m : Map String Stored) (nodes : Nodes) (id : String) (i : NodeInfo)
    → Holds st r.name m
    → Represents r m nodes
    → IsProper r id
    → lookup id nodes ≡ some i
    → get_node st r.name id ≡ inr (some i)
unfolding get_node
found_node r st m nodes id i h v p e =
    let g = get_state_data_lem st r.name id m h.1 p.named in
    let there : lookup id m ≡ some (info_json i) = v.stored id p ∙ ap encoded e in
    rw (get_node, g, there) refl

weight_sum-covers :
    (id : String) (i : NodeInfo) (nodes : Nodes)
    → lookup id nodes ≡ some i
    → i.weight ≤ weight_sum nodes
weight_sum-covers id i nodes e = omega (arith, weight_sum-delete id i nodes e)

-- `updateWeight` of a node of the register, with the new sum below 2 ^ 63, succeeds, gives the node the
-- weight and the total the difference; the ids and all other stores stay as they are.
pub update_weight-Registered :
    (r : Register) (st : Store) (nodes : Nodes) (id : String) (i : NodeInfo) (w : ℕ)
    → Registered r st nodes
    → IsProper r id
    → lookup id nodes ≡ some i
    → weight_sum nodes + w < i64_sign + i.weight
    → (st' : Store) × (update_weight st r.name id r.weight_key w ≡ (st', none))
      × Registered r st' (insert id (record i { weight = w }) nodes)
      × ((other : String) → other ≢ r.name → lookup other st'.store_map ≡ lookup other st.store_map)
unfolding update_weight
update_weight-Registered r st nodes id i w (m, h, v) p e small =
    let i' : NodeInfo = record i { weight = w } in
    let nodes' = insert id i' nodes in
    let mine : i.node_id ≡ id = v.own_id id i e in
    let found = found_node r st m nodes id i h v p e in
    let m1 = insert id (info_json i') m in
    let (ids_there, weight_there) = present_totals r m nodes id i v e in
    let (ids_same, weight_same) = apart_from r id (info_json i') m p in
    let (st1, w1, b1) = update_lem st r.name id (info_json i') m h p.named in
    let own_write : update st r.name i.node_id (info_json i') ≡ (st1, none) =
      subst (λ (k : String). update st r.name k (info_json i') ≡ (st1, none)) (sym mine) w1 in
    let (st2, w2, b2) =
      update_total_weight_lem r st1 m1 (weight_sum nodes) (sub_u64 w i.weight) b1.holds
        (weight_same ∙ weight_there) in
    let sum_new = weight_sum-insert_old id i' i nodes e in
    let changed =
      total_plus-change (weight_sum nodes) i.weight w (weight_sum-covers id i nodes e) v.bounded
        small in
    let total_right : total_plus (weight_sum nodes) (sub_u64 w i.weight) ≡ weight_sum nodes' =
      omega (arith, changed, sum_new) in
    let outer = λ (key : String).
      lookup-insert r.weight_key key
        (weight_bytes (total_plus (weight_sum nodes) (sub_u64 w i.weight))) m1 in
    (
      st2,
      rw (update_weight, found, own_write) w2,
      (
        _,
        b2.holds,
        record {
          distinct = Distinct-insert id i' nodes v.distinct;
          keys = Distinct-insert _ _ m1 (Distinct-insert id (info_json i') m v.keys);
          stored = λ j q. ground (
            arith,
            outer j,
            lookup-insert id j (info_json i') m,
            lookup-insert id j i' nodes,
            v.stored j q,
            q.not_weight,
            ==_iff r.weight_key j,
          );
          own_id = OwnIds-insert id i' nodes mine v.own_id;
          totals = inr (
            rw (ids_of-insert_old id i' i nodes e) (
                ground (
                  arith,
                  outer r.ids_key,
                  r.apart,
                  ==_iff r.weight_key r.ids_key,
                  ids_same,
                  ids_there,
                )),
            rw (← total_right)
                (ground (arith, outer r.weight_key, ==_iff r.weight_key r.weight_key)),
          );
          bounded = omega (arith, sum_new, small);
        },
      ),
      (λ other n. b2.others other n ∙ b1.others other n),
    )

OwnIds-delete :
    (id : String) (nodes : Nodes) → Distinct nodes → OwnIds nodes → OwnIds (delete id nodes)
OwnIds-delete id nodes d own j k e = own j k (ground (arith, lookup-delete id j nodes d))

-- `removeNode` of a node of the register with its weight succeeds and takes the node out of the nodes, its
-- id out of the list and its weight off the total; all other stores stay as they are.
pub remove_node-Registered :
    (r : Register) (st : Store) (nodes : Nodes) (id : String) (i : NodeInfo)
    → Registered r st nodes
    → IsProper r id
    → lookup id nodes ≡ some i
    → (st' : Store) × (remove_node st r.name r.ids_key r.weight_key id i.weight ≡ (st', none))
      × Registered r st' (delete id nodes)
      × ((other : String) → other ≢ r.name → lookup other st'.store_map ≡ lookup other st.store_map)
unfolding remove_node written
remove_node-Registered r st nodes id i (m, h, v) p e =
    let m1 = delete id m in
    let gone = λ (key : String). lookup-delete id key m v.keys in
    let (ids_there, weight_there) = present_totals r m nodes id i v e in
    let (st1, w1, b1) = delete_key_lem st r.name id m h p.named in
    let (st2, w2, b2) =
      drop_id_lem r st1 m1 (ids_of nodes) id b1.holds
        (ground (arith, gone r.ids_key, p.not_ids, ==_iff id r.ids_key, ids_there)) in
    let m2 = insert r.ids_key (ids_json (remove_if_exist_string id (ids_of nodes))) m1 in
    let still : lookup r.weight_key m2 ≡ some (weight_bytes (weight_sum nodes)) = ground (
      arith,
      lookup-insert r.ids_key r.weight_key (ids_json (remove_if_exist_string id (ids_of nodes))) m1,
      r.apart,
      ==_iff r.ids_key r.weight_key,
      gone r.weight_key,
      p.not_weight,
      ==_iff id r.weight_key,
      weight_there,
    ) in
    let (st3, w3, b3) = drop_weight_lem r st2 m2 (weight_sum nodes) i.weight b2.holds still in
    let sum_new = weight_sum-delete id i nodes e in
    let removed =
      total_plus-removal (weight_sum nodes) i.weight (weight_sum-covers id i nodes e) v.bounded in
    (
      st3,
      rw (w1, w2) w3,
      (
        _,
        b3.holds,
        written-Represents r m1 (delete id nodes) (remove_if_exist_string id (ids_of nodes))
            (total_plus (weight_sum nodes) (neg_u64 i.weight))
            (sym (remove_if_exist_string-ids_of id nodes v.distinct))
            (omega (arith, sum_new, removed)) (Distinct-delete id nodes v.distinct)
            (Distinct-delete id m v.keys)
            (λ j q. ground (arith, gone j, lookup-delete id j nodes v.distinct, v.stored j q))
            (OwnIds-delete id nodes v.distinct v.own_id) (omega (arith, sum_new, v.bounded)),
      ),
      (λ other n. b3.others other n ∙ b2.others other n ∙ b1.others other n),
    )
