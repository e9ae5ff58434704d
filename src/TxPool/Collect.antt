-- ===== src/TxPool/Collect.antt =====
-- transaction_pool/core/tx_clollect.go: all transactions of the pool, by id, by account and pending.
-- The channel from the accounts to the pending lists is a queue; `receive` is a round of the goroutine
-- that `startReceivePendingTx` starts. A full channel delays a sender and changes nothing else.
pub mod Laws
pub mod Reach
pub mod Progress
use topia.Base.{ℕ, String, Bool, List, [], ◌∷◌, ◌++◌, Option, none, some, if◌then◌else◌}
use topia.Base.Eq.{string_eq}
use topia.Base.Map.{Map, lookup, insert, is_some}
use topia.Common.ShrinkMap
use topia.Common.ShrinkMap.{ShrinkableMap, new_shrink_map, get}
use topia.Transaction.Types.{Tx}
use topia.TxPool.Wrapper.{TxWrapperUni}
use topia.TxPool.AccountTxs
use topia.TxPool.AccountTxs.{
  AccountTxManager, AddError, new_account_tx_manager, get_pending_txs, get_all_txs,
}
use topia.TxPool.Pending
use topia.TxPool.Pending.{
  PendingTxList, new_pending_tx_list, pick_pending_txs, purge_expired_txs, ◌>>=◌,
}

pub record CollectTxs : Type 0 where
  pub full_txs : ShrinkableMap String TxWrapperUni
  pub account_txs : Map String AccountTxManager
  pub pending_tx_chan : List TxWrapperUni
  pub pending_txs : PendingTxList

pub data CollectError : Type 0 where
  existed_tx : CollectError
  account : AddError → CollectError

unfoldable pub new_collect_txs : CollectTxs
unfolding new_shrink_map new_pending_tx_list
new_collect_txs = record {
  full_txs = new_shrink_map;
  account_txs = [];
  pending_tx_chan = [];
  pending_txs = new_pending_tx_list;
}

abbrev pub or_new : Option AccountTxManager → AccountTxManager
or_new none = new_account_tx_manager
or_new (some mng) = mng

-- c.accountTxs[addr], or a new manager.
abbrev pub manager_of : CollectTxs → String → AccountTxManager
manager_of c addr = or_new (lookup addr c.account_txs)

abbrev pub account_error : Option AddError → Option CollectError
account_error none = none
account_error (some e) = some (account e)

-- The wrapper is put under its id before the account's manager is asked, and it stays there if the
-- manager refuses it.
unfoldable pub add_tx : CollectTxs → TxWrapperUni → CollectTxs × Option CollectError
add_tx c w_tx =
    let r = AccountTxs.add_tx (manager_of c w_tx.from_addr) w_tx in
    if is_some (get c.full_txs w_tx.tx_id) then (c, some existed_tx) else (
      record c {
        full_txs = ShrinkMap.set c.full_txs w_tx.tx_id w_tx;
        account_txs = insert w_tx.from_addr r.mng c.account_txs;
        pending_tx_chan = c.pending_tx_chan ++ r.sent;
      },
      account_error r.error,
    )

abbrev pub received : CollectTxs → List TxWrapperUni → Option PendingTxList → Option CollectTxs
received c rest none = none
received c rest (some pl) = some (record c { pending_tx_chan = rest; pending_txs = pl })

abbrev pub receive_head : CollectTxs → List TxWrapperUni → Option CollectTxs
receive_head c [] = some c
receive_head c (w_tx ∷ rest) = received c rest (Pending.add_tx c.pending_txs w_tx)

-- The receiving goroutine takes the head of the queue; with an empty queue it waits.
unfoldable pub receive : CollectTxs → Option CollectTxs
receive c = receive_head c c.pending_tx_chan

-- `removePendingTx` at the account of a removed wrapper, if there is such an account.
abbrev pub forget : CollectTxs → TxWrapperUni → Option AccountTxManager → CollectTxs
forget c w_tx none = c
forget c w_tx (some mng) = record c {
  account_txs = insert w_tx.from_addr (AccountTxs.remove_pending_tx mng w_tx.nonce) c.account_txs;
}

abbrev pub forget_found : CollectTxs → Option TxWrapperUni → CollectTxs
forget_found c none = c
forget_found c (some w_tx) = forget c w_tx (lookup w_tx.from_addr c.account_txs)

unfoldable pub remove_tx : CollectTxs → String → Option (CollectTxs × Option TxWrapperUni)
remove_tx c tx_id = elim (Pending.remove_tx c.pending_txs tx_id) [
  | none ↦ none
  | some r ↦
      let c1 = record c { full_txs = ShrinkMap.del c.full_txs tx_id; pending_txs = r.0 } in
      some (forget_found c1 r.1, r.1)
]

pub pick_txs : CollectTxs → ℕ → ℕ → List Tx
pick_txs c block_max_bytes block_max_gas =
    pick_pending_txs c.pending_txs block_max_bytes block_max_gas

abbrev pub purged : CollectTxs → Option PendingTxList → Option CollectTxs
purged c none = none
purged c (some pl) = some (record c { pending_txs = pl })

unfoldable pub purge_expired : CollectTxs → ℕ → ℕ → ℕ → ℕ → Option CollectTxs
purge_expired c height now time_of_tx_lifecycle height_of_tx_lifecycle =
    purged c
      (purge_expired_txs c.pending_txs height now time_of_tx_lifecycle height_of_tx_lifecycle)

pub republish : CollectTxs → ℕ → Option (List TxWrapperUni)
republish c re_pub_limit = Pending.republish_txs c.pending_txs re_pub_limit

-- `none` is the error of an unknown address.
pub pending_of_address : CollectTxs → String → Option (List Tx)
pending_of_address c addr = do mng ← lookup addr c.account_txs; get_pending_txs mng

pub all_of_address : CollectTxs → String → Option (List Tx)
all_of_address c addr = do mng ← lookup addr c.account_txs; get_all_txs mng

pub all_of_address_func : (String → Bool) → Map String AccountTxManager → Option (List Tx)
all_of_address_func addr_func [] = some []
all_of_address_func addr_func ((addr, mng) ∷ rest) = do
  later ← all_of_address_func addr_func rest
  if addr_func addr then (do ts ← get_all_txs mng; some (ts ++ later)) else some later

unfoldable pub get_tx : CollectTxs → String → Option TxWrapperUni
get_tx c tx_id = get c.full_txs tx_id
