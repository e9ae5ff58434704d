-- ===== src/TxPool/Pending/Laws.antt =====
-- The pending lists together: their orders, and what the purge does.
use mathlib.Core.List.{Perm}
use topia.Base.{
  ℕ, ◌≡◌, refl, ◌∙◌, inl, inr, String, Bool, true, false, ◌||◌, List, [], ◌∷◌, none, some, arith,
  if◌then◌else◌,
}
use topia.TxPool.Wrapper.{TxWrapperUni, SortWay}
use topia.TxPool.Sorted
use topia.TxPool.Sorted.{SortedTxList}
use topia.TxPool.Sorted.Order.{Falls, add_tx-perm, add_tx-ordered}
use topia.TxPool.Sorted.Removal.{remove_from-Falls}
use topia.TxPool.Pending.{
  PendingTxList, new_pending_tx_list, add_tx, remove_tx, purge_loop, purge_expired_txs,
  expired_by_height, expired_by_time,
}

pub record IsOrdered (pl : PendingTxList) : Type 0 where
  pub free : pl.sync_held ≡ false
  pub misc_way : pl.sorted_txs.s_way ≡ SortWay.misc
  pub height_way : pl.height_txs.s_way ≡ SortWay.height
  pub time_way : pl.time_txs.s_way ≡ SortWay.time
  pub height_falls : Falls (λ w. w.height) pl.height_txs.tx_list
  pub time_falls : Falls (λ w. w.time_stamp) pl.time_txs.tx_list

pub new-IsOrdered : IsOrdered new_pending_tx_list
unfolding new_pending_tx_list
new-IsOrdered = record {
  free = refl;
  misc_way = refl;
  height_way = refl;
  time_way = refl;
  height_falls = tt;
  time_falls = tt;
}

abbrev pub any : (TxWrapperUni → Bool) → List TxWrapperUni → Bool
any p [] = false
any p (x ∷ xs) = p x || any p xs

-- Under the lock a purge loop returns only if it finds nothing to purge.
purge_loop_lem :
    (p : TxWrapperUni → Bool) (xs : List TxWrapperUni) (pl : PendingTxList)
    → pl.sync_held ≡ true
    → purge_loop p xs pl ≡ (if any p xs then none else some pl)
unfolding purge_loop remove_tx
purge_loop_lem p [] pl held = refl
purge_loop_lem p (x ∷ xs) pl held = ground (arith, purge_loop_lem p xs pl held)

-- With the lock free, `purgeExpiredTxs` blocks for ever as soon as one transaction has expired, by
-- its height in the one list or by its time in the other, and otherwise leaves the lists as they are.
pub purge_expired_txs_lem :
    (pl : PendingTxList) (height now time_life height_life : ℕ)
    → pl.sync_held ≡ false
    → purge_expired_txs pl height now time_life height_life ≡ (
        if any (expired_by_height height height_life) pl.height_txs.tx_list
          || any (expired_by_time now time_life) pl.time_txs.tx_list
        then none
        else some pl)
unfolding purge_expired_txs
purge_expired_txs_lem pl height now time_life height_life free =
    let under_lock = record pl { sync_held = true } in
    ground (
      arith,
      purge_loop_lem (expired_by_height height height_life) pl.height_txs.tx_list under_lock refl,
      purge_loop_lem (expired_by_time now time_life) pl.time_txs.tx_list under_lock refl,
    )

-- `add_tx` and `remove_tx` of the three lists at once. From ordered lists, neither blocks nor panics,
-- and the lists are ordered afterwards.
pub add_tx-IsOrdered :
    (pl : PendingTxList) (w : TxWrapperUni)
    → IsOrdered pl
    → (pl' : PendingTxList) × (add_tx pl w ≡ some pl')
      × IsOrdered pl'
      × Perm pl'.sorted_txs.tx_list (w ∷ pl.sorted_txs.tx_list)
unfolding add_tx
add_tx-IsOrdered pl w o =
    let (a, ea, wa, pa) = add_tx-perm pl.sorted_txs w (λ u. cc) in
    let (b, eb, wb, fb, pb) =
      add_tx-ordered SortWay.height pl.height_txs w (inl refl) o.height_way o.height_falls in
    let (c, ec, wc, fc, pc) =
      add_tx-ordered SortWay.time pl.time_txs w (inr refl) o.time_way o.time_falls in
    (
      record { sync_held = false; sorted_txs = a; height_txs = b; time_txs = c },
      rw (o.free, ea, eb, ec),
      record {
        free = refl;
        misc_way = wa ∙ o.misc_way;
        height_way = wb;
        time_way = wc;
        height_falls = fb;
        time_falls = fc;
      },
      pa,
    )

-- From ordered lists, `removeTx` takes the id out of all three and returns what the mixed list had
-- under it; the lists stay in order.
pub remove_tx-IsOrdered :
    (pl : PendingTxList) (id : String)
    → IsOrdered pl
    → (pl' : PendingTxList) × (remove_tx pl id ≡ some (pl', (Sorted.remove_tx pl.sorted_txs id).1))
      × IsOrdered pl'
unfolding remove_tx Sorted.remove_tx
remove_tx-IsOrdered pl id o = (
  record {
    sync_held = false;
    sorted_txs = (Sorted.remove_tx pl.sorted_txs id).0;
    height_txs = (Sorted.remove_tx pl.height_txs id).0;
    time_txs = (Sorted.remove_tx pl.time_txs id).0;
  },
  rw o.free,
  record {
    free = refl;
    misc_way = o.misc_way;
    height_way = o.height_way;
    time_way = o.time_way;
    height_falls = remove_from-Falls (λ w. w.height) id pl.height_txs.tx_list o.height_falls;
    time_falls = remove_from-Falls (λ w. w.time_stamp) id pl.time_txs.tx_list o.time_falls;
  },
)
