-- ===== src/TxPool/AccountTxs.antt =====
-- transaction_pool/core/accounts_txs.go, type accountTxManager: the transactions of one account.
-- Each method holds the manager's lock for its whole body. What `AddTx` sends on the channel to the
-- pending lists is a result of the call, in the order of the sends; a full channel only delays it.
pub mod Invariant
pub mod Contiguous
pub mod Listing
use topia.Base.{
  ℕ, zero, suc, ◌+◌, ◌-◌, String, Bool, true, false, List, [], ◌∷◌, ◌++◌, Option, none, some, ◌=?◌,
  ltb, if◌then◌else◌, length, map,
}
use topia.Base.Eq.{nat_eq}
use topia.Base.Map.{Map, lookup, insert, delete, is_some}
use topia.Base.Words.{u64_mod, add_u64, sub_u64}
use topia.Transaction.Types.{Tx}
use topia.TxPool.Wrapper.{TxWrapperUni}

pub record AccountTxManager : Type 0 where
  pub pending_txs : Map ℕ TxWrapperUni
  pub gap_txs : Map ℕ TxWrapperUni
  pub max_cont_nonce : ℕ

pub data AddError : Type 0 where
  existed_pending existed_gap invalid_nonce : AddError

-- The manager after the call, the wrappers sent, and the error if there is one.
pub record Added : Type 0 where
  pub mng : AccountTxManager
  pub sent : List TxWrapperUni
  pub error : Option AddError

unfoldable pub new_account_tx_manager : AccountTxManager
new_account_tx_manager = record { pending_txs = []; gap_txs = []; max_cont_nonce = 0 }

-- The loop of `AddTx`, from the nonce `i`: while the next nonce waits in the gap map, it is sent. Each
-- round takes an entry out of the gap map, so the number of entries bounds the rounds.
unfoldable pub drain : ℕ → AccountTxManager → ℕ → AccountTxManager × List TxWrapperUni
drain zero a i = (a, [])
drain (suc n) a i = elim (lookup i a.gap_txs) [
  | none ↦ (a, [])
  | some w_tx ↦
      let (a', sent) =
        drain n
          (record {
            pending_txs = insert i w_tx a.pending_txs;
            gap_txs = delete i a.gap_txs;
            max_cont_nonce = i;
          })
          (add_u64 i 1) in
      (a', w_tx ∷ sent)
]

-- The branch of the next nonce: the wrapper is sent, and then what has waited for it.
unfoldable pub accept : AccountTxManager → TxWrapperUni → Added
unfolding drain
accept a w_tx =
    let a1 : AccountTxManager = record a {
      pending_txs = insert w_tx.nonce w_tx a.pending_txs;
      max_cont_nonce = w_tx.nonce;
    } in
    let (a2, sent) = drain (suc (length a1.gap_txs)) a1 (add_u64 w_tx.nonce 1) in
    record { mng = a2; sent = w_tx ∷ sent; error = none }

unfoldable pub refuse : AccountTxManager → AddError → Added
refuse a err = record { mng = a; sent = []; error = some err }

unfoldable pub add_tx : AccountTxManager → TxWrapperUni → Added
unfolding refuse
add_tx a w_tx =
    if is_some (lookup w_tx.nonce a.pending_txs)
    then refuse a existed_pending
    else (if is_some (lookup w_tx.nonce a.gap_txs)
        then refuse a existed_gap
        else (if w_tx.nonce =? add_u64 a.max_cont_nonce 1
            then accept a w_tx
            else (if ltb (add_u64 a.max_cont_nonce 1) w_tx.nonce
                then record {
                  mng = record a { gap_txs = insert w_tx.nonce w_tx a.gap_txs };
                  sent = [];
                  error = none;
                }
                else refuse a invalid_nonce)))

unfoldable pub remove_pending_tx : AccountTxManager → ℕ → AccountTxManager
remove_pending_tx a nonce = record a { pending_txs = delete nonce a.pending_txs }

-- The loops of the two listings: from a nonce on while the next one, up or down, is pending. `none`
-- says that the fuel ran out.
unfoldable pub collect_up : ℕ → Map ℕ TxWrapperUni → ℕ → Option (List Tx)
collect_up zero pending nonce = none
collect_up (suc n) pending nonce = elim (lookup nonce pending) [
  | none ↦ some []
  | some w_tx ↦ elim (collect_up n pending (add_u64 nonce 1)) [
    | none ↦ none
    | some rest ↦ some (w_tx.orgin_tx ∷ rest)
  ]
]

unfoldable pub collect_down : ℕ → Map ℕ TxWrapperUni → ℕ → Option (List Tx)
collect_down zero pending nonce = none
collect_down (suc n) pending nonce = elim (lookup nonce pending) [
  | none ↦ some []
  | some w_tx ↦ elim (collect_down n pending (sub_u64 nonce 1)) [
    | none ↦ none
    | some rest ↦ some (w_tx.orgin_tx ∷ rest)
  ]
]

-- At most the pending map's entries are met, and one more round ends the loop.
unfoldable pub get_pending_txs : AccountTxManager → Option (List Tx)
unfolding collect_up
get_pending_txs a = collect_up (suc (length a.pending_txs)) a.pending_txs a.max_cont_nonce

-- From the greatest nonce down to 1, and one more round.
unfoldable pub get_all_txs : AccountTxManager → Option (List Tx)
unfolding collect_down
get_all_txs a = elim (collect_down (suc a.max_cont_nonce) a.pending_txs a.max_cont_nonce) [
  | none ↦ none
  | some pending ↦ some (pending ++ map (λ e. e.1.orgin_tx) a.gap_txs)
]
