-- ===== src/TxPool/Sorted.antt =====
-- transaction_pool/core/tx_sort.go: a list of wrappers kept in order by insertion. Each method holds
-- the list's lock for its whole body. A panic of `Less` is `none`.
pub mod Search
pub mod Order
pub mod Removal
pub mod Mixed
pub mod Pick
use Search.{sort_search}
use topia.Base.{
  ℕ, suc, ◌+◌, String, Bool, false, List, [], ◌∷◌, ◌++◌, Option, none, some, ◌=?◌, ltb,
  if◌then◌else◌, length, get_elem?, take, drop, set,
}
use topia.Base.Eq.{◌==◌, string_eq}
use topia.Transaction.Types.{Tx}
use topia.TxPool.Wrapper.{TxWrapperUni, SortWay, less}

pub record SortedTxList : Type 0 where
  pub s_way : SortWay
  pub tx_list : List TxWrapperUni

unfoldable pub new_sorted_tx_list : SortWay → SortedTxList
new_sorted_tx_list s_way = record { s_way = s_way; tx_list = [] }

-- The predicate that `addTx` hands to `sort.Search`; the index is always in range.
unfoldable pub less_at : SortWay → List TxWrapperUni → TxWrapperUni → ℕ → Option Bool
less_at s_way tx_list w_tx i = elim (get_elem? tx_list i) [
  | none ↦ none
  | some x ↦ less x s_way w_tx
]

-- `append(l[:index+1], l[index:]...)` doubles the entry at the index, and the write replaces it.
unfoldable pub insert_at : List TxWrapperUni → ℕ → TxWrapperUni → List TxWrapperUni
insert_at tx_list index w_tx =
    if index =? length tx_list
    then tx_list ++ w_tx ∷ []
    else set (take (suc index) tx_list ++ drop index tx_list) index w_tx

unfoldable pub add_tx : SortedTxList → TxWrapperUni → Option SortedTxList
add_tx st w_tx = elim (sort_search (length st.tx_list) (less_at st.s_way st.tx_list w_tx)) [
  | none ↦ none
  | some index ↦ some (record st { tx_list = insert_at st.tx_list index w_tx })
]

unfoldable pub remove_from : String → List TxWrapperUni → Option TxWrapperUni × List TxWrapperUni
remove_from tx_id [] = (none, [])
remove_from tx_id (x ∷ xs) =
    let rest = remove_from tx_id xs in
    if x.tx_id == tx_id then (some x, xs) else (rest.0, x ∷ rest.1)

unfoldable pub remove_tx : SortedTxList → String → SortedTxList × Option TxWrapperUni
remove_tx st tx_id =
    let (found, rest) = remove_from tx_id st.tx_list in (record st { tx_list = rest }, found)

pub reset : SortedTxList → SortedTxList
reset st = record st { tx_list = [] }

pub size : SortedTxList → ℕ
size st = length st.tx_list

unfoldable pub find_tx : String → List TxWrapperUni → Option TxWrapperUni
find_tx tx_id [] = none
find_tx tx_id (x ∷ xs) = if x.tx_id == tx_id then some x else find_tx tx_id xs

pub get_tx : SortedTxList → String → Option TxWrapperUni
unfolding find_tx
get_tx st tx_id = find_tx tx_id st.tx_list

-- The loop of `pickTxs`: it stops before the first transaction that does not fit any more.
unfoldable pub pick_loop : ℕ → ℕ → List TxWrapperUni → List Tx
pick_loop block_max_bytes total_size [] = []
pick_loop block_max_bytes total_size (x ∷ xs) =
    let total = total_size + x.size in
    let rest = pick_loop block_max_bytes total xs in
    if ltb block_max_bytes total then [] else x.orgin_tx ∷ rest

-- The gas bound is not used, as in the source. The byte bound is a configured, non-negative number.
unfoldable pub pick_txs : SortedTxList → ℕ → ℕ → List Tx
unfolding pick_loop
pick_txs st block_max_bytes block_max_gas = pick_loop block_max_bytes 0 st.tx_list
