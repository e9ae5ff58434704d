-- ===== src/TxPool/AccountTxs/Listing.antt =====
-- Histories of an account's manager, and what its two listings return.
use topia.Base.{
  ℕ, zero, suc, ◌+◌, ◌<◌, ◌≡◌, refl, subst, inl, inr, List, [], ◌∷◌, ◌++◌, Option, none, some,
  arith, length, Option-cases, All, map,
}
use topia.Base.Eq.{nat_eq}
use topia.Transaction.Types.{Tx}
use topia.Base.Map.{Map, lookup, lookup-delete, Distinct-delete}
use topia.Base.Words.{u64_mod, add_u64, sub_u64}
use topia.TxPool.Wrapper.{TxWrapperUni}
use topia.TxPool.AccountTxs.{
  AccountTxManager, new_account_tx_manager, add_tx, remove_pending_tx, collect_up, collect_down,
  get_pending_txs, get_all_txs,
}
use topia.TxPool.AccountTxs.Invariant.{Inv, new-Inv}
use topia.TxPool.AccountTxs.Contiguous.{Consecutive, add_tx-Adds}

abbrev pub to_list {ℓ} : {A : Type ℓ} → Option A → List A
to_list none = []
to_list (some a) = a ∷ []

pub data Call : Type 0 where
  adds : TxWrapperUni → Call
  removes : ℕ → Call

unfoldable pub step : AccountTxManager → Call → AccountTxManager × List TxWrapperUni
step a (adds w) = let r = add_tx a w in (r.mng, r.sent)
step a (removes nonce) = (remove_pending_tx a nonce, [])

-- The manager after all calls, and all that was sent.
unfoldable pub run : AccountTxManager → List Call → AccountTxManager × List TxWrapperUni
run a [] = (a, [])
run a (c ∷ cs) = let (a', sent) = step a c in let (a'', later) = run a' cs in (a'', sent ++ later)

-- Added nonces are below 2 ^ 64 - 1, where the next nonce does not wrap around.
abbrev pub IsSmall : Call → Type 0
IsSmall (adds w) = w.nonce + 1 < u64_mod
IsSmall (removes nonce) = Unit

pub remove_pending_tx-Inv :
    (a : AccountTxManager) (nonce : ℕ) → Inv a → Inv (remove_pending_tx a nonce)
unfolding remove_pending_tx
remove_pending_tx-Inv a nonce v = record {
  gap_distinct = v.gap_distinct;
  pending_distinct = Distinct-delete nonce a.pending_txs v.pending_distinct;
  pending_range = λ n w e.
      ground (arith, lookup-delete nonce n a.pending_txs v.pending_distinct, v.pending_range n w);
  gap_range = v.gap_range;
  max_range = v.max_range;
}

Consecutive-append :
    (i : ℕ) (xs ys : List TxWrapperUni)
    → Consecutive i xs
    → Consecutive (i + length xs) ys
    → Consecutive i (xs ++ ys)
Consecutive-append i [] ys c d = subst (λ (k : ℕ). Consecutive k ys) (omega arith) d
Consecutive-append i (x ∷ xs) ys c d = (
  c.0,
  Consecutive-append (suc i) xs ys c.1 (subst (λ (k : ℕ). Consecutive k ys) (omega arith) d),
)

run-Consecutive_from :
    (a : AccountTxManager) (cs : List Call)
    → Inv a
    → All IsSmall cs
    → Inv (run a cs).0 × Consecutive (suc a.max_cont_nonce) (run a cs).1
unfolding run step remove_pending_tx
run-Consecutive_from a [] v small = (v, tt)
run-Consecutive_from a (adds w ∷ cs) v small =
    let r = add_tx-Adds a w v small.0 in
    let (v', later) = run-Consecutive_from (add_tx a w).mng cs r.inv small.1 in
    let grown : suc (add_tx a w).mng.max_cont_nonce
        ≡ suc a.max_cont_nonce + length (add_tx a w).sent =
      omega (arith, r.grown) in
    let rest = (run (add_tx a w).mng cs).1 in
    (v', Consecutive-append _ _ _ r.consecutive (subst (λ (k : ℕ). Consecutive k rest) grown later))
run-Consecutive_from a (removes nonce ∷ cs) v small =
    run-Consecutive_from (remove_pending_tx a nonce) cs (remove_pending_tx-Inv a nonce v) small.1

-- From a new manager, whatever transactions come in which order and whichever are removed, if their
-- nonces are below 2 ^ 64 - 1: the transactions that reach the pending lists have the nonces 1, 2,
-- 3 and so on, in this order, none missing and none twice.
pub run-Consecutive :
    (cs : List Call) → All IsSmall cs → Consecutive 1 (run new_account_tx_manager cs).1
unfolding new_account_tx_manager
run-Consecutive cs small = (run-Consecutive_from new_account_tx_manager cs new-Inv small).1

lookup-length :
    (n : ℕ) (w : TxWrapperUni) (m : Map ℕ TxWrapperUni)
    → lookup n m ≡ some w
    → (k : ℕ) × (length m ≡ suc k)
unfolding lookup
lookup-length n w [] e = cc
lookup-length n w (p ∷ m) e = (length m, refl)

next_free :
    (a : AccountTxManager) → Inv a → lookup (add_u64 a.max_cont_nonce 1) a.pending_txs ≡ none
next_free a v = elim (Option-cases (lookup (add_u64 a.max_cont_nonce 1) a.pending_txs)) [
  | inl e ↦ e
  | inr (w, e) ↦ absurd (omega (arith, v.pending_range _ w e, v.max_range))
]

zero_free : (a : AccountTxManager) → Inv a → lookup 0 a.pending_txs ≡ none
zero_free a v = elim (Option-cases (lookup 0 a.pending_txs)) [
  | inl e ↦ e
  | inr (w, e) ↦ absurd (omega (arith, v.pending_range 0 w e))
]

-- `getPendingTxs` counts up from the greatest sent nonce. Above it nothing is pending, so it returns
-- the transaction of that nonce alone, or nothing once that one is removed.
pub get_pending_txs_lem :
    (a : AccountTxManager)
    → Inv a
    → get_pending_txs a
      ≡ some (map (λ w. w.orgin_tx) (to_list (lookup a.max_cont_nonce a.pending_txs)))
unfolding get_pending_txs
get_pending_txs_lem a v = elim (Option-cases (lookup a.max_cont_nonce a.pending_txs)) [
  | inl e ↦ rw (e, collect_up)
  | inr (w, e) ↦
      let (k, l) = lookup-length a.max_cont_nonce w a.pending_txs e in
      rw (e, collect_up, l, next_free a v, collect_up)
]

-- From `n` down, the transactions that are pending under consecutive nonces, up to a missing nonce.
pub data RunDown (pending : Map ℕ TxWrapperUni) : ℕ → List Tx → Type 0 where
  stop : {n : ℕ} → lookup n pending ≡ none → RunDown pending n []
  take :
      {n : ℕ} {w : TxWrapperUni} {ts : List Tx}
      → lookup (suc n) pending ≡ some w
      → RunDown pending n ts
      → RunDown pending (suc n) (w.orgin_tx ∷ ts)

collect_down-take :
    (pending : Map ℕ TxWrapperUni) (m n : ℕ) (w : TxWrapperUni) (ts : List Tx)
    → suc n < u64_mod
    → lookup (suc n) pending ≡ some w
    → collect_down m pending n ≡ some ts
    → collect_down (suc m) pending (suc n) ≡ some (w.orgin_tx ∷ ts)
unfolding collect_down
collect_down-take pending m n w ts h there r =
    let before : sub_u64 (suc n) 1 ≡ n = omega arith in rw (there, collect_down, before, r)

collect_down-RunDown :
    (pending : Map ℕ TxWrapperUni) (n : ℕ)
    → n < u64_mod
    → lookup 0 pending ≡ none
    → (ts : List Tx) × (collect_down (suc n) pending n ≡ some ts) × RunDown pending n ts
unfolding collect_down
collect_down-RunDown pending zero h e = ([], rw (e, collect_down), stop e)
collect_down-RunDown pending (suc n) h e = elim (Option-cases (lookup (suc n) pending)) [
  | inl gone ↦ ([], rw (gone, collect_down), stop gone)
  | inr (w, there) ↦
      let (ts, r, d) = collect_down-RunDown pending n (omega arith) e in
      (w.orgin_tx ∷ ts, collect_down-take pending (suc n) n w ts h there r, take there d)
]

-- `getAllTxs` returns the pending transactions from the greatest sent nonce down to the first nonce
-- that is not pending any more, and after them every transaction that waits for a missing nonce.
pub get_all_txs-RunDown :
    (a : AccountTxManager)
    → Inv a
    → (ts : List Tx) × (get_all_txs a ≡ some (ts ++ map (λ e. e.1.orgin_tx) a.gap_txs))
      × RunDown a.pending_txs a.max_cont_nonce ts
unfolding get_all_txs
get_all_txs-RunDown a v =
    let (ts, e, d) =
      collect_down-RunDown a.pending_txs a.max_cont_nonce (omega (arith, v.max_range))
        (zero_free a v) in
    (ts, rw (e, get_all_txs), d)
