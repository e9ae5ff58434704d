-- ===== src/TxPool/AccountTxs/Invariant.antt =====
-- What holds of an account's manager between calls.
use topia.Base.{ℕ, ◌+◌, ◌≤◌, ◌<◌, ◌≡◌, some, arith}
use topia.Base.Eq.{nat_eq}
use topia.Base.Map.{
  lookup, insert, delete, Distinct, lookup-insert, lookup-delete, Distinct-insert, Distinct-delete,
}
use topia.Base.Words.{u64_mod}
use topia.TxPool.Wrapper.{TxWrapperUni}
use topia.TxPool.AccountTxs.{AccountTxManager, new_account_tx_manager}

-- Pending nonces run up to `max_cont_nonce`; between it and the waiting ones a nonce is missing, so
-- that the next nonce is in neither map. Every wrapper stands under its own nonce.
pub record Inv (a : AccountTxManager) : Type 0 where
  pub gap_distinct : Distinct a.gap_txs
  pub pending_distinct : Distinct a.pending_txs
  pub pending_range :
      (n : ℕ) (w : TxWrapperUni)
      → lookup n a.pending_txs ≡ some w
      → (0 < n) × (n ≤ a.max_cont_nonce) × (w.nonce ≡ n)
  pub gap_range :
      (n : ℕ) (w : TxWrapperUni)
      → lookup n a.gap_txs ≡ some w
      → (a.max_cont_nonce + 1 < n) × (n + 1 < u64_mod) × (w.nonce ≡ n)
  pub max_range : a.max_cont_nonce + 1 < u64_mod

pub new-Inv : Inv new_account_tx_manager
unfolding new_account_tx_manager lookup
new-Inv = record {
  gap_distinct = tt;
  pending_distinct = tt;
  pending_range = λ n w e. cc;
  gap_range = λ n w e. cc;
  max_range = omega arith;
}

-- The state of the loop before a round: as `Inv`, but the next nonce may wait in the gap map.
pub record Draining (a : AccountTxManager) : Type 0 where
  pub gap_distinct : Distinct a.gap_txs
  pub pending_distinct : Distinct a.pending_txs
  pub pending_range :
      (n : ℕ) (w : TxWrapperUni)
      → lookup n a.pending_txs ≡ some w
      → (0 < n) × (n ≤ a.max_cont_nonce) × (w.nonce ≡ n)
  pub gap_range :
      (n : ℕ) (w : TxWrapperUni)
      → lookup n a.gap_txs ≡ some w
      → (a.max_cont_nonce < n) × (n + 1 < u64_mod) × (w.nonce ≡ n)
  pub max_range : a.max_cont_nonce + 1 < u64_mod

-- One round of the loop.
abbrev pub move : AccountTxManager → ℕ → TxWrapperUni → AccountTxManager
move a i w = record {
  pending_txs = insert i w a.pending_txs;
  gap_txs = delete i a.gap_txs;
  max_cont_nonce = i;
}

pub move-Draining :
    (a : AccountTxManager) (i : ℕ) (w : TxWrapperUni)
    → Draining a
    → i ≡ a.max_cont_nonce + 1
    → lookup i a.gap_txs ≡ some w
    → Draining (move a i w)
move-Draining a i w d next waits = record {
  gap_distinct = Distinct-delete i a.gap_txs d.gap_distinct;
  pending_distinct = Distinct-insert i w a.pending_txs d.pending_distinct;
  pending_range = λ n v e.
      ground (arith, lookup-insert i n w a.pending_txs, d.pending_range n v, d.gap_range i w);
  gap_range = λ n v e. ground (arith, lookup-delete i n a.gap_txs d.gap_distinct, d.gap_range n v);
  max_range = ground (arith, d.gap_range i w waits);
}
