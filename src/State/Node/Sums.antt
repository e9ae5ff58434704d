-- ===== src/State/Node/Sums.antt =====
-- The ids and the sum of the weights of a register's nodes, as nodes come, change and go.
use topia.Base.{
  ◌+◌, ◌≡◌, refl, sym, ap, subst, inl, inr, String, [], ◌∷◌, ◌++◌, none, some, arith, Bool-cases,
}
use topia.Base.Eq.{◌==◌, ==_iff, string_eq}
use topia.Base.Map.{lookup, insert, delete, Distinct}
use topia.State.Node.{NodeInfo, remove_if_exist_string}
use topia.State.Node.Totals.{Nodes, ids_of, weight_sum}

pub ids_of-insert_new :
    (id : String) (i : NodeInfo) (nodes : Nodes)
    → lookup id nodes ≡ none
    → ids_of (insert id i nodes) ≡ ids_of nodes ++ id ∷ []
unfolding lookup insert
ids_of-insert_new id i [] h = refl
ids_of-insert_new id i ((k, j) ∷ nodes) h = elim (Bool-cases (k == id)) [
  | inl hit ↦ ground (arith, hit)
  | inr miss ↦ rw miss (ap (◌∷◌ k) (ids_of-insert_new id i nodes (ground arith)))
]

pub ids_of-insert_old :
    (id : String) (i old : NodeInfo) (nodes : Nodes)
    → lookup id nodes ≡ some old
    → ids_of (insert id i nodes) ≡ ids_of nodes
unfolding lookup insert
ids_of-insert_old id i old [] h = ground arith
ids_of-insert_old id i old ((k, j) ∷ nodes) h = elim (Bool-cases (k == id)) [
  | inl hit ↦ rw hit (ap (λ x. x ∷ ids_of nodes) (sym ((==_iff k id).0 hit)))
  | inr miss ↦ rw miss (ap (◌∷◌ k) (ids_of-insert_old id i old nodes (ground arith)))
]

pub weight_sum-insert_new :
    (id : String) (i : NodeInfo) (nodes : Nodes)
    → lookup id nodes ≡ none
    → weight_sum (insert id i nodes) ≡ weight_sum nodes + i.weight
unfolding lookup insert
weight_sum-insert_new id i [] h = omega arith
weight_sum-insert_new id i ((k, j) ∷ nodes) h = ground (arith, weight_sum-insert_new id i nodes)

pub weight_sum-insert_old :
    (id : String) (i old : NodeInfo) (nodes : Nodes)
    → lookup id nodes ≡ some old
    → weight_sum (insert id i nodes) + old.weight ≡ weight_sum nodes + i.weight
unfolding lookup insert
weight_sum-insert_old id i old [] h = ground arith
weight_sum-insert_old id i old ((k, j) ∷ nodes) h = elim (Bool-cases (k == id)) [
  | inl hit ↦ let same : j ≡ old = ground arith in rw hit (ground (arith, ap (λ n. n.weight) same))
  | inr miss ↦ rw miss (omega (arith, weight_sum-insert_old id i old nodes (ground arith)))
]

pub weight_sum-delete :
    (id : String) (old : NodeInfo) (nodes : Nodes)
    → lookup id nodes ≡ some old
    → weight_sum (delete id nodes) + old.weight ≡ weight_sum nodes
unfolding lookup delete
weight_sum-delete id old [] h = ground arith
weight_sum-delete id old ((k, j) ∷ nodes) h = elim (Bool-cases (k == id)) [
  | inl hit ↦ let same : j ≡ old = ground arith in rw hit (ground (arith, ap (λ n. n.weight) same))
  | inr miss ↦ rw miss (omega (arith, weight_sum-delete id old nodes (ground arith)))
]

remove_if_exist_string-absent :
    (id : String) (nodes : Nodes)
    → lookup id nodes ≡ none
    → remove_if_exist_string id (ids_of nodes) ≡ ids_of nodes
unfolding lookup remove_if_exist_string
remove_if_exist_string-absent id [] h = refl
remove_if_exist_string-absent id ((k, j) ∷ nodes) h = elim (Bool-cases (k == id)) [
  | inl hit ↦ ground (arith, hit)
  | inr miss ↦ rw miss (ap (◌∷◌ k) (remove_if_exist_string-absent id nodes (ground arith)))
]

pub remove_if_exist_string-ids_of :
    (id : String) (nodes : Nodes)
    → Distinct nodes
    → remove_if_exist_string id (ids_of nodes) ≡ ids_of (delete id nodes)
unfolding lookup delete remove_if_exist_string
remove_if_exist_string-ids_of id [] d = refl
remove_if_exist_string-ids_of id ((k, j) ∷ nodes) d = elim (Bool-cases (k == id)) [
  | inl hit ↦
      let same = (==_iff k id).0 hit in
      rw hit (
        remove_if_exist_string-absent id nodes
          (subst (λ (x : String). lookup x nodes ≡ none) same d.0))
  | inr miss ↦ rw miss (ap (◌∷◌ k) (remove_if_exist_string-ids_of id nodes d.1))
]
