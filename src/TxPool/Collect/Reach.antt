-- ===== src/TxPool/Collect/Reach.antt =====
-- The pool's invariant, over every sequence of its state-changing calls and of the receiver's rounds.
use topia.Base.{
  ℕ, ◌+◌, ◌<◌, ◌≡◌, ◌∙◌, sym, ap, arith, Bool, true, false, ◌||◌, if◌then◌else◌, refl, subst, inl,
  inr, String, List, [], ◌∷◌, Option, none, some, Option-cases, Bool-cases,
}
use topia.Base.Eq.{string_eq}
use topia.Base.Map.{lookup, values-insert, is_some}
use topia.Base.Words.{u64_mod}
use topia.Common.ShrinkMap
use topia.Common.ShrinkMap.{get}
use topia.Common.ShrinkMap.Laws.{IsValid, IsValid-new, set-IsValid, del-IsValid}
use topia.TxPool.Wrapper.{TxWrapperUni}
use topia.TxPool.AccountTxs.{AccountTxManager}
use topia.TxPool.AccountTxs.Invariant.{Inv, new-Inv}
use topia.TxPool.AccountTxs.Contiguous.{add_tx-Adds}
use topia.TxPool.AccountTxs.Listing.{remove_pending_tx-Inv}
use topia.TxPool.Sorted
use topia.TxPool.Pending.Laws.{
  IsOrdered, new-IsOrdered, add_tx-IsOrdered, remove_tx-IsOrdered, any, purge_expired_txs_lem,
}
use topia.TxPool.Pending.{expired_by_height, expired_by_time}
use topia.TxPool.Collect.{
  CollectTxs, new_collect_txs, manager_of, add_tx, receive, receive_head, remove_tx, forget_found,
  purge_expired, purged,
}

-- A pending transaction has expired, by its height in the one list or by its time in the other.
abbrev pub has_expired : CollectTxs → (height now time_life height_life : ℕ) → Bool
has_expired c height now time_life height_life =
    any (expired_by_height height height_life) c.pending_txs.height_txs.tx_list
    || any (expired_by_time now time_life) c.pending_txs.time_txs.tx_list

pub record PoolInv (c : CollectTxs) : Type 0 where
  pub full : IsValid c.full_txs
  pub ordered : IsOrdered c.pending_txs
  pub accounts :
      (addr : String) (mng : AccountTxManager) → lookup addr c.account_txs ≡ some mng → Inv mng

pub new-PoolInv : PoolInv new_collect_txs
unfolding new_collect_txs lookup
new-PoolInv = record { full = IsValid-new; ordered = new-IsOrdered; accounts = λ addr mng e. cc }

manager_of-Inv : (c : CollectTxs) (addr : String) → PoolInv c → Inv (manager_of c addr)
manager_of-Inv c addr v = elim (Option-cases (lookup addr c.account_txs)) [
  | inl e ↦ rw e new-Inv
  | inr (mng, e) ↦ rw e (v.accounts addr mng e)
]

pub add_tx-PoolInv :
    (c : CollectTxs) (w : TxWrapperUni) → PoolInv c → w.nonce + 1 < u64_mod → PoolInv (add_tx c w).0
unfolding add_tx
add_tx-PoolInv c w v small = elim (Bool-cases (is_some (get c.full_txs w.tx_id))) [
  | inl known ↦ rw known v
  | inr fresh ↦ rw fresh (record {
    full = set-IsValid c.full_txs w.tx_id w v.full;
    ordered = v.ordered;
    accounts =
        values-insert Inv w.from_addr _ c.account_txs v.accounts
          (add_tx-Adds (manager_of c w.from_addr) w (manager_of-Inv c w.from_addr v) small).inv;
  })
]

receive_head-PoolInv :
    (c : CollectTxs) (chan : List TxWrapperUni)
    → PoolInv c
    → (c' : CollectTxs) × (receive_head c chan ≡ some c') × PoolInv c'
receive_head-PoolInv c [] v = (c, refl, v)
receive_head-PoolInv c (w ∷ rest) v =
    let (pl, e, o, p) = add_tx-IsOrdered c.pending_txs w v.ordered in
    (
      record c { pending_tx_chan = rest; pending_txs = pl },
      rw e,
      record { full = v.full; ordered = o; accounts = v.accounts },
    )

-- A round of the receiver does not panic or block, and keeps the invariant.
pub receive-PoolInv :
    (c : CollectTxs) → PoolInv c → (c' : CollectTxs) × (receive c ≡ some c') × PoolInv c'
unfolding receive
receive-PoolInv c v = receive_head-PoolInv c c.pending_tx_chan v

forget-PoolInv :
    (c : CollectTxs) (found : Option TxWrapperUni) → PoolInv c → PoolInv (forget_found c found)
forget-PoolInv c none v = v
forget-PoolInv c (some w) v = elim (Option-cases (lookup w.from_addr c.account_txs)) [
  | inl e ↦ rw e v
  | inr (mng, e) ↦ rw e (record {
    full = v.full;
    ordered = v.ordered;
    accounts =
        values-insert Inv w.from_addr _ c.account_txs v.accounts
          (remove_pending_tx-Inv mng w.nonce (v.accounts w.from_addr mng e));
  })
]

-- `RemoveTx` does not block, and keeps the invariant.
pub remove_tx-PoolInv :
    (c : CollectTxs) (id : String)
    → PoolInv c
    → (r : CollectTxs × Option TxWrapperUni) × (remove_tx c id ≡ some r) × PoolInv r.0
unfolding remove_tx
remove_tx-PoolInv c id v =
    let (pl, e, o) = remove_tx-IsOrdered c.pending_txs id v.ordered in
    let c1 : CollectTxs = record c { full_txs = ShrinkMap.del c.full_txs id; pending_txs = pl } in
    let found = (Sorted.remove_tx c.pending_txs.sorted_txs id).1 in
    let v1 : PoolInv c1 = record {
      full = del-IsValid c.full_txs id v.full;
      ordered = o;
      accounts = v.accounts;
    } in
    ((forget_found c1 found, found), rw (e, remove_tx), forget-PoolInv c1 found v1)

-- A purge that returns found nothing to purge.
pub purge_expired-same :
    (c : CollectTxs) (height now time_life height_life : ℕ)
    → PoolInv c
    → purge_expired c height now time_life height_life
      ≡ (if has_expired c height now time_life height_life then none else some c)
unfolding purge_expired
purge_expired-same c height now time_life height_life v =
    ap (purged c)
      (purge_expired_txs_lem c.pending_txs height now time_life height_life v.ordered.free)
    ∙ by_test (has_expired c height now time_life height_life)
  where
    by_test :
        (found : Bool)
        → purged c (if found then none else some c.pending_txs) ≡ (if found then none else some c)
    by_test true = refl
    by_test false = refl

-- The pool's state changes: a transaction arrives (its nonce is not the last of uint64), the receiver
-- makes a round, a transaction is removed, a purge is made that returns.
pub data Step : CollectTxs → CollectTxs → Type 0 where
  adds : {c : CollectTxs} (w : TxWrapperUni) → w.nonce + 1 < u64_mod → Step c (add_tx c w).0
  receives : {c c' : CollectTxs} → receive c ≡ some c' → Step c c'
  removes :
      {c : CollectTxs} {r : CollectTxs × Option TxWrapperUni} (id : String)
      → remove_tx c id ≡ some r
      → Step c r.0
  purges :
      {c c' : CollectTxs} (height now time_life height_life : ℕ)
      → purge_expired c height now time_life height_life ≡ some c'
      → Step c c'

pub data Reach : CollectTxs → Type 0 where
  start : Reach new_collect_txs
  next : {c c' : CollectTxs} → Reach c → Step c c' → Reach c'

-- The value of a call that is known twice.
same_result {ℓ κ} :
    {A : Type ℓ} (P : A → Type κ) {o : Option A} {a b : A} → o ≡ some a → o ≡ some b → P a → P b
same_result P p q h = subst P (cc) h

Step-PoolInv : {c c' : CollectTxs} → Step c c' → PoolInv c → PoolInv c'
Step-PoolInv (adds {c} w small) v = add_tx-PoolInv c w v small
Step-PoolInv (receives {c} e) v =
    let (c'', e', v') = receive-PoolInv c v in same_result PoolInv e' e v'
Step-PoolInv (removes {c} id e) v =
    let (r', e', v') = remove_tx-PoolInv c id v in same_result (λ p. PoolInv p.0) e' e v'
Step-PoolInv (purges {c} {c'} height now time_life height_life e) v =
    by_test (has_expired c height now time_life height_life)
      (sym (purge_expired-same c height now time_life height_life v) ∙ e)
  where
    by_test : (found : Bool) → (if found then none else some c) ≡ some c' → PoolInv c'
    by_test true e' = ground arith
    by_test false e' = same_result PoolInv refl e' v

-- In every state that the pool reaches by adding (with nonces below 2 ^ 64 - 1), the receiver's rounds,
-- removals and purges that return: the shrinkable map is valid, every
-- account's manager keeps its invariant, and the lists by height and by time fall, with their lock free.
pub Reach-PoolInv : {c : CollectTxs} → Reach c → PoolInv c
Reach-PoolInv start = new-PoolInv
Reach-PoolInv (next r s) = Step-PoolInv s (Reach-PoolInv r)
