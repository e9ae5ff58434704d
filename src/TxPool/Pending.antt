-- ===== src/TxPool/Pending.antt =====
-- transaction_pool/core/accounts_txs.go, type pendingTxList: the three sorted lists and their lock.
-- `sync_held` is the lock's state as the running goroutine has it. Go's lock is not reentrant: to
-- take it again under itself blocks for ever, which is `none`, as is a panic.
pub mod Laws
use topia.Base.{
  ℕ, ◌+◌, String, Bool, true, false, List, [], ◌∷◌, Option, none, some, ◌=?◌, ltb, ◌&&◌, not,
  if◌then◌else◌,
}
use topia.Base.Words.{add_u64}
use topia.Transaction.Types.{Tx}
use topia.TxPool.Wrapper.{TxWrapperUni, SortWay, is_republished}
use topia.TxPool.Sorted
use topia.TxPool.Sorted.{SortedTxList, new_sorted_tx_list, pick_txs}

pub record PendingTxList : Type 0 where
  pub sync_held : Bool
  pub sorted_txs : SortedTxList
  pub height_txs : SortedTxList
  pub time_txs : SortedTxList

unfoldable pub new_pending_tx_list : PendingTxList
unfolding new_sorted_tx_list
new_pending_tx_list = record {
  sync_held = false;
  sorted_txs = new_sorted_tx_list SortWay.misc;
  height_txs = new_sorted_tx_list SortWay.height;
  time_txs = new_sorted_tx_list SortWay.time;
}

infixl 5 ◌>>=◌
abbrev pub ◌>>=◌ {ℓ κ} : {A : Type ℓ} {B : Type κ} → Option A → (A → Option B) → Option B
none >>= f = none
some a >>= f = f a

-- pl.sync.Lock() and pl.sync.Unlock().
abbrev pub lock : PendingTxList → Option PendingTxList
lock pl = if pl.sync_held then none else some (record pl { sync_held = true })

abbrev pub unlock : PendingTxList → PendingTxList
unlock pl = record pl { sync_held = false }

unfoldable pub add_tx : PendingTxList → TxWrapperUni → Option PendingTxList
add_tx pl w_tx = do
  pl1 ← lock pl
  sorted ← Sorted.add_tx pl1.sorted_txs w_tx
  by_height ← Sorted.add_tx pl1.height_txs w_tx
  by_time ← Sorted.add_tx pl1.time_txs w_tx
  some (unlock (record pl1 { sorted_txs = sorted; height_txs = by_height; time_txs = by_time }))

unfoldable pub remove_tx : PendingTxList → String → Option (PendingTxList × Option TxWrapperUni)
remove_tx pl tx_id = do
  pl1 ← lock pl
  let (sorted, w_tx) = Sorted.remove_tx pl1.sorted_txs tx_id
  let by_height = (Sorted.remove_tx pl1.height_txs tx_id).0
  let by_time = (Sorted.remove_tx pl1.time_txs tx_id).0
  some (
    unlock (record pl1 { sorted_txs = sorted; height_txs = by_height; time_txs = by_time }),
    w_tx,
  )

unfoldable pub pick_pending_txs : PendingTxList → ℕ → ℕ → List Tx
pick_pending_txs pl block_max_bytes block_max_gas =
    pick_txs pl.sorted_txs block_max_bytes block_max_gas

-- One of the two loops of `purgeExpiredTxs`, over the list as it stood when the loop began.
unfoldable pub purge_loop :
    (TxWrapperUni → Bool) → List TxWrapperUni → PendingTxList → Option PendingTxList
purge_loop expired [] pl = some pl
purge_loop expired (w_tx ∷ rest) pl = elim (expired w_tx) [
  | false ↦ purge_loop expired rest pl
  | true ↦ elim (remove_tx pl w_tx.tx_id) [ none ↦ none | some r ↦ purge_loop expired rest r.0 ]
]

abbrev pub expired_by_height : ℕ → ℕ → TxWrapperUni → Bool
expired_by_height height height_of_tx_lifecycle w_tx =
    height =? add_u64 w_tx.height height_of_tx_lifecycle

-- now.Sub(stamp) > lifecycle; the difference is signed in the source.
abbrev pub expired_by_time : ℕ → ℕ → TxWrapperUni → Bool
expired_by_time now time_of_tx_lifecycle w_tx = ltb (w_tx.time_stamp + time_of_tx_lifecycle) now

unfoldable pub purge_expired_txs : PendingTxList → ℕ → ℕ → ℕ → ℕ → Option PendingTxList
unfolding purge_loop
purge_expired_txs pl height now time_of_tx_lifecycle height_of_tx_lifecycle = do
  pl1 ← lock pl
  pl2 ← purge_loop (expired_by_height height height_of_tx_lifecycle) pl1.height_txs.tx_list pl1
  pl3 ← purge_loop (expired_by_time now time_of_tx_lifecycle) pl2.time_txs.tx_list pl2
  some (unlock pl3)

-- The wrappers that `republishTxs` hands to `publish`, in order.
unfoldable pub republish_loop : ℕ → ℕ → List TxWrapperUni → List TxWrapperUni
republish_loop limit count [] = []
republish_loop limit count (w_tx ∷ rest) =
    let due = ltb count limit && not (is_republished w_tx.tx_state) in
    let later = republish_loop limit (if due then count + 1 else count) rest in
    if due then w_tx ∷ later else later

unfoldable pub republish_txs : PendingTxList → ℕ → Option (List TxWrapperUni)
unfolding republish_loop
republish_txs pl re_pub_limit = do
  pl1 ← lock pl
  some (republish_loop re_pub_limit 0 pl1.height_txs.tx_list)
