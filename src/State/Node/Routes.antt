-- ===== src/State/Node/Routes.antt =====
-- The router over the four registers: which register a role and a state lead to, and what the routed
-- calls do to all registers together.
use topia.Base.{
  ℕ, ◌≡◌, ◌≢◌, refl, sym, ◌∙◌, ap, subst, String, true, false, inl, inr, Option, none, some, arith,
  if◌then◌else◌, Bool-cases,
}
use topia.Base.Eq.{◌==◌, ==_iff, string_eq}
use topia.Base.Map.{Map, lookup, insert, lookup-insert}
use topia.State.Store.Laws.{Holds}
use topia.State.Node.{NodeInfo, NodeStateMetaInfo, Stored, meta_json, Store}
use topia.State.Node.Totals.{Nodes, Register, Registered}
use topia.State.Node.Registers.Executor.{executor_store_name, executor_ids_key, executor_weight_key}
use topia.State.Node.Registers.Proposer.{proposer_store_name, proposer_ids_key, proposer_weight_key}
use topia.State.Node.Registers.Validator.{
  validator_store_name, validator_ids_key, validator_weight_key,
}
use topia.State.Node.Registers.Inactive.{inactive_store_name, inactive_ids_key, inactive_weight_key}
use topia.State.Node.Router.{node_store_name, by_role_and_state}

pub data Kind : Type 0 where
  executors proposers validators inactives : Kind

pub differ : (a b : String) → (a == b) ≡ false → a ≢ b
differ a b n e = ground (arith, (==_iff a b).1 e)

unfoldable pub register_with :
    (name ids_key weight_key : String)
    → (ids_key == "") ≡ false
    → (weight_key == "") ≡ false
    → (ids_key == weight_key) ≡ false
    → Register
register_with name ids_key weight_key a b c = record {
  name = name;
  ids_key = ids_key;
  weight_key = weight_key;
  ids_named = differ ids_key "" a;
  weight_named = differ weight_key "" b;
  apart = differ ids_key weight_key c;
}

unfoldable pub register_of : Kind → Register
unfolding register_with
register_of executors =
    register_with executor_store_name executor_ids_key executor_weight_key refl refl refl
register_of proposers =
    register_with proposer_store_name proposer_ids_key proposer_weight_key refl refl refl
register_of validators =
    register_with validator_store_name validator_ids_key validator_weight_key refl refl refl
register_of inactives =
    register_with inactive_store_name inactive_ids_key inactive_weight_key refl refl refl

abbrev pub kind_of : ℕ → ℕ → Option Kind
kind_of role state =
    by_role_and_state role state (some executors) (some proposers) (some validators)
      (some inactives) none none

abbrev pub choose {ℓ} : {A : Type ℓ} → Kind → A → A → A → A → A
choose executors a b c d = a
choose proposers a b c d = b
choose validators a b c d = c
choose inactives a b c d = d

pub by_role_and_state-choose {ℓ} :
    {A : Type ℓ} (role state : ℕ) (k : Kind) (a b c d e f : A)
    → kind_of role state ≡ some k
    → by_role_and_state role state a b c d e f ≡ choose k a b c d
by_role_and_state-choose role state executors a b c d e f h = ground (arith, h)
by_role_and_state-choose role state proposers a b c d e f h = ground (arith, h)
by_role_and_state-choose role state validators a b c d e f h = ground (arith, h)
by_role_and_state-choose role state inactives a b c d e f h = ground (arith, h)

-- No two registers have one store.
pub same_store : (k k' : Kind) → ((register_of k).name == (register_of k').name) ≡ true → k ≡ k'
unfolding register_of register_with
same_store executors executors h = refl
same_store executors proposers h = ground (arith, h)
same_store executors validators h = ground (arith, h)
same_store executors inactives h = ground (arith, h)
same_store proposers executors h = ground (arith, h)
same_store proposers proposers h = refl
same_store proposers validators h = ground (arith, h)
same_store proposers inactives h = ground (arith, h)
same_store validators executors h = ground (arith, h)
same_store validators proposers h = ground (arith, h)
same_store validators validators h = refl
same_store validators inactives h = ground (arith, h)
same_store inactives executors h = ground (arith, h)
same_store inactives proposers h = ground (arith, h)
same_store inactives validators h = ground (arith, h)
same_store inactives inactives h = refl

-- The router's own store is none of the registers'.
pub own_store : (k : Kind) → (register_of k).name ≢ node_store_name
unfolding register_of register_with
own_store executors = differ executor_store_name node_store_name refl
own_store proposers = differ proposer_store_name node_store_name refl
own_store validators = differ validator_store_name node_store_name refl
own_store inactives = differ inactive_store_name node_store_name refl

-- The nodes of all registers, with those of one replaced.
abbrev pub with_nodes : Kind → Nodes → (Kind → Nodes) → Kind → Nodes
with_nodes k ns nodes k' = if (register_of k).name == (register_of k').name then ns else nodes k'

-- The router's store says where each node of each register is.
abbrev pub Routes : Map String Stored → (Kind → Nodes) → Type 0
Routes routes nodes =
    (id : String) (k : Kind) (i : NodeInfo)
    → lookup id (nodes k) ≡ some i
    → (meta : NodeStateMetaInfo) × (lookup id routes ≡ some (meta_json meta))
      × (kind_of meta.role meta.state ≡ some k)

-- The store has the four registers with these nodes, and the routes to them.
pub record Routed (st : Store) (nodes : Kind → Nodes) : Type 0 where
  pub registered : (k : Kind) → Registered (register_of k) st (nodes k)
  pub routes : (m : Map String Stored) × Holds st node_store_name m × Routes m nodes

-- A register does not notice writes to other stores.
pub Registered-other :
    (r : Register) (st st' : Store) (ns : Nodes)
    → Registered r st ns
    → st'.read_only ≡ false
    → lookup r.name st'.store_map ≡ lookup r.name st.store_map
    → Registered r st' ns
Registered-other r st st' ns (m, h, v) w same = (m, (w, same ∙ h.1), v)

-- The routes after a write to one register's nodes under one id that has the route to it.
pub Routes-write :
    (routes routes' : Map String Stored) (nodes : Kind → Nodes) (k : Kind) (id : String)
    (i : NodeInfo)
    → Routes routes nodes
    → ((meta : NodeStateMetaInfo) × (lookup id routes' ≡ some (meta_json meta))
        × (kind_of meta.role meta.state ≡ some k))
    → ((k' : Kind) (n : NodeInfo) → lookup id (nodes k') ≡ some n → k ≡ k')
    → ((j : String) → (id == j) ≡ false → lookup j routes' ≡ lookup j routes)
    → Routes routes' (with_nodes k (insert id i (nodes k)) nodes)
Routes-write routes routes' nodes k id i to (meta, at, kind) alone others j k' n e =
    elim (Bool-cases (id == j)) [
      | inl hit ↦
          let there : id ≡ j = (==_iff id j).0 hit in
          let mine : k ≡ k' = elim (Bool-cases ((register_of k).name == (register_of k').name)) [
            | inl same ↦ same_store k k' same
            | inr apart ↦
                let e' : lookup j (nodes k') ≡ some n = ground (arith, e, apart) in
                alone k' n (subst (λ (x : String). lookup x (nodes k') ≡ some n) (sym there) e')
          ] in
          (
            meta,
            subst (λ (x : String). lookup x routes' ≡ some (meta_json meta)) there at,
            kind ∙ ap (λ x. some x) mine,
          )
      | inr miss ↦ elim (Bool-cases ((register_of k).name == (register_of k').name)) [
        | inl same ↦
            let e' : lookup j (nodes k) ≡ some n =
              ground (arith, e, same, lookup-insert id j i (nodes k)) in
            let (m, a, b) = to j k n e' in
            (m, others j miss ∙ a, b ∙ ap (λ x. some x) (same_store k k' same))
        | inr apart ↦
            let e' : lookup j (nodes k') ≡ some n = ground (arith, e, apart) in
            let (m, a, b) = to j k' n e' in (m, others j miss ∙ a, b)
      ]
    ]
