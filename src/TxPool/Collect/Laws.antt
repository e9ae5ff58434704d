-- ===== src/TxPool/Collect/Laws.antt =====
-- What a client of the pool sees of AddTx, RemoveTx and GetTx.
use topia.Base.{◌≡◌, String, none, some, arith, if◌then◌else◌}
use topia.Base.Eq.{string_eq, ◌==◌, ==_iff}
use topia.Base.Map.{is_some}
use topia.Common.ShrinkMap.Laws.{IsValid, get-set}
use topia.TxPool.Wrapper.{TxWrapperUni}
use topia.TxPool.Collect.{CollectTxs, CollectError, existed_tx, add_tx, get_tx}

-- What GetTx finds after AddTx: under the new id the new wrapper, whether or not the account's manager
-- took it, unless there was one with that id before; under every other id what it found before.
get_tx-add_tx :
    (c : CollectTxs) (w : TxWrapperUni) (id : String)
    → IsValid c.full_txs
    → get_tx (add_tx c w).0 id ≡ (
        if is_some (get_tx c w.tx_id)
        then get_tx c id
        else (if w.tx_id == id then some w else get_tx c id))
unfolding get_tx add_tx
get_tx-add_tx c w id v = ground (arith, get-set c.full_txs w.tx_id w id v)

-- A new transaction that the account's manager refuses stays in the pool under its id: GetTx finds it,
-- and the same transaction, sent again, is refused as existing, whatever has become of the refusal's
-- reason.
add_tx_refused_stays :
    (c : CollectTxs) (w : TxWrapperUni) (e : CollectError)
    → IsValid c.full_txs
    → get_tx c w.tx_id ≡ none
    → (add_tx c w).1 ≡ some e
    → (get_tx (add_tx c w).0 w.tx_id ≡ some w) × ((add_tx (add_tx c w).0 w).1 ≡ some existed_tx)
unfolding get_tx add_tx
add_tx_refused_stays c w e v fresh refused =
    ground (arith, get-set c.full_txs w.tx_id w w.tx_id v, ==_iff w.tx_id w.tx_id)
