-- ===== src/TxPool/Collect/Progress.antt =====
-- Which calls of the pool return, and which block behind a purge (transaction_pool/core/tx_clollect.go).
use topia.Base.{ℕ, ◌≡◌, ap, true, if◌then◌else◌, refl, String, List, ◌∷◌, Option, none, some}
use topia.Base.Eq.{string_eq}
use topia.TxPool.Wrapper.{TxWrapperUni}
use topia.TxPool.Pending
use topia.TxPool.Pending.{PendingTxList, expired_by_height, expired_by_time}
use topia.TxPool.Collect.{CollectTxs, receive, receive_head, remove_tx, purge_expired}
use topia.TxPool.Collect.Reach.{
  PoolInv, has_expired, purge_expired-same, receive-PoolInv, remove_tx-PoolInv, Reach,
  Reach-PoolInv,
}

-- What the other goroutines find while a purge blocks: it has changed nothing, and holds the lock.
abbrev pub behind_purge : CollectTxs → CollectTxs
behind_purge c = record c { pending_txs = record (c.pending_txs) { sync_held = true } }

receive-behind :
    (c : CollectTxs) (w : TxWrapperUni) (rest : List TxWrapperUni)
    → c.pending_tx_chan ≡ w ∷ rest
    → receive (behind_purge c) ≡ none
unfolding receive Pending.add_tx
receive-behind c w rest e = ap (receive_head (behind_purge c)) e

remove_tx-behind : (c : CollectTxs) (id : String) → remove_tx (behind_purge c) id ≡ none
unfolding remove_tx Pending.remove_tx
remove_tx-behind c id = refl

-- The receiver and the remover do not return.
abbrev pub IsBlocked : CollectTxs → Type 0
IsBlocked c =
    ((w : TxWrapperUni) (rest : List TxWrapperUni)
      → c.pending_tx_chan ≡ w ∷ rest
      → receive c ≡ none)
    × ((id : String) → remove_tx c id ≡ none)

-- In every state that the pool reaches by adding (with nonces below 2 ^ 64 - 1), the receiver's rounds,
-- removals and purges that return: the receiver's next round and every `RemoveTx` return and keep the
-- pool's invariant; a purge returns, and changes nothing, exactly if no pending transaction has expired.
-- A purge that finds one blocks, and behind it every `RemoveTx` and every round of the receiver with a
-- message in the channel block as well.
pub Reach-progress :
    {c : CollectTxs} (id : String) (height now time_life height_life : ℕ)
    → Reach c
    → ((c' : CollectTxs) × (receive c ≡ some c') × PoolInv c')
      × ((r : CollectTxs × Option TxWrapperUni) × (remove_tx c id ≡ some r) × PoolInv r.0)
      × (purge_expired c height now time_life height_life
          ≡ (if has_expired c height now time_life height_life then none else some c))
      × IsBlocked (behind_purge c)
Reach-progress {c} id height now time_life height_life r =
    let v = Reach-PoolInv r in
    (
      receive-PoolInv c v,
      remove_tx-PoolInv c id v,
      purge_expired-same c height now time_life height_life v,
      (receive-behind c, remove_tx-behind c),
    )
