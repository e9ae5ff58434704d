-- ===== src/TxPool/Tests.antt =====
-- Runs of the transaction pool, and its theorems at concrete transactions.
use topia.Base.{
  ℕ, ◌+◌, ◌≡◌, refl, ◌∙◌, inl, inr, List, [], ◌∷◌, ◌++◌, Option, none, some, String, Bool, false,
  true, arith, length, map, ◌||◌, if◌then◌else◌,
}
use mathlib.Core.List.{Perm}
use topia.Base.Eq.{string_eq, nat_eq}
use topia.Base.Map.{lookup, insert, delete}
use topia.Transaction.Types.{Tx}
use topia.TxPool.Wrapper.{TxWrapperUni, SortWay, TxState, less}
use topia.TxPool.Sorted
use topia.TxPool.Sorted.{SortedTxList, pick_txs, remove_from}
use topia.TxPool.Sorted.Search.{sort_search}
use topia.TxPool.Sorted.Order.{Falls, key_of, add_tx-ordered, add_tx-perm}
use topia.TxPool.Sorted.Pick.{Picks, pick_txs-Picks}
use topia.TxPool.AccountTxs
use topia.TxPool.AccountTxs.{
  AccountTxManager, invalid_nonce, new_account_tx_manager, drain, get_pending_txs, get_all_txs,
}
use topia.TxPool.AccountTxs.Invariant.{Inv, new-Inv}
use topia.TxPool.AccountTxs.Contiguous.{Adds, Consecutive, add_tx-Adds}
use topia.TxPool.AccountTxs.Listing.{adds, removes, run, step, run-Consecutive}
use topia.TxPool.Pending.{PendingTxList, purge_expired_txs}
use topia.TxPool.Pending.Laws.{purge_expired_txs_lem}
use topia.TxPool.Collect
use topia.TxPool.Collect.{
  CollectTxs, new_collect_txs, get_tx, existed_tx, account, receive, remove_tx, purge_expired,
}
use topia.TxPool.Collect.Reach.{PoolInv, Step, start, next, Reach-PoolInv, has_expired}
use topia.TxPool.Collect.Progress.{IsBlocked, behind_purge, Reach-progress}

abbrev origin : ℕ → Tx
origin n = record {
  head = record {
    category = "uni";
    chain_id = "1";
    version = 1;
    time_stamp = 0;
    index = 0;
    from_addr = "alice";
    nonce = n;
    signature = "";
  };
  body = record { specification = "" };
}

-- The transaction of a nonce, at a height and a time, with a gas price.
abbrev wrapped : String → ℕ → ℕ → ℕ → ℕ → TxWrapperUni
wrapped id n h t price = record {
  tx_id = id;
  category = "uni";
  tx_state = TxState.unknown;
  size = 100;
  time_stamp = t;
  height = h;
  from_addr = "alice";
  nonce = n;
  gas_price = price;
  from_peers = [];
  orgin_tx = origin n;
}

abbrev first : TxWrapperUni
first = wrapped "a" 1 7 10 5

abbrev second : TxWrapperUni
second = wrapped "b" 2 7 11 6

abbrev third : TxWrapperUni
third = wrapped "c" 3 9 12 5

abbrev by_height : SortedTxList
by_height = record { s_way = SortWay.height; tx_list = third ∷ first ∷ [] }

-- The middle one of three heights goes between the two others.
sorted_in :
    Sorted.add_tx by_height (wrapped "d" 4 8 13 5)
    ≡ some (record { s_way = SortWay.height; tx_list = third ∷ wrapped "d" 4 8 13 5 ∷ first ∷ [] })
unfolding Sorted.add_tx sort_search Sorted.less_at Sorted.insert_at less
sorted_in = refl

add_tx-ordered_example :
    (st' : SortedTxList) × (Sorted.add_tx by_height second ≡ some st')
    × (st'.s_way ≡ SortWay.height)
    × Falls (key_of SortWay.height) st'.tx_list
    × Perm st'.tx_list (second ∷ by_height.tx_list)
add_tx-ordered_example =
    add_tx-ordered SortWay.height by_height second (inl refl) refl (omega arith)

add_tx-perm_example :
    (st' : SortedTxList) × (Sorted.add_tx by_height second ≡ some st')
    × (st'.s_way ≡ SortWay.height)
    × Perm st'.tx_list (second ∷ third ∷ first ∷ [])
add_tx-perm_example = add_tx-perm by_height second (λ u. cc)

pick_txs-Picks_example :
    (n : ℕ) × (pick_txs by_height 150 0
      ≡ map (λ x. x.orgin_tx) (topia.Base.take n by_height.tx_list))
    × Picks 150 0 by_height.tx_list n
pick_txs-Picks_example = pick_txs-Picks by_height 150 0

-- The second transaction comes first and waits for the first one.
out_of_order : (run new_account_tx_manager (adds second ∷ adds first ∷ [])).1 ≡ first ∷ second ∷ []
unfolding run step new_account_tx_manager AccountTxs.add_tx AccountTxs.accept drain lookup insert
    delete
out_of_order = refl

add_tx-Adds_example :
    Adds new_account_tx_manager second (AccountTxs.add_tx new_account_tx_manager second)
add_tx-Adds_example = add_tx-Adds new_account_tx_manager second new-Inv (omega arith)

run-Consecutive_example :
    Consecutive 1 (run new_account_tx_manager (adds second ∷ removes 1 ∷ adds first ∷ [])).1
run-Consecutive_example =
    run-Consecutive (adds second ∷ removes 1 ∷ adds first ∷ [])
      (omega arith, (tt, (omega arith, tt)))

-- Two transactions are pending.
abbrev two_pending : AccountTxManager
two_pending = record {
  pending_txs = (1, first) ∷ (2, second) ∷ [];
  gap_txs = [];
  max_cont_nonce = 2;
}

two_pending-Inv : Inv two_pending
unfolding lookup
two_pending-Inv = record {
  gap_distinct = tt;
  pending_distinct = (refl, (refl, tt));
  pending_range = λ n w e. ground arith;
  gap_range = λ n w e. cc;
  max_range = omega arith;
}

abbrev pending : PendingTxList
pending = record {
  sync_held = false;
  sorted_txs = record { s_way = SortWay.misc; tx_list = first ∷ [] };
  height_txs = record { s_way = SortWay.height; tx_list = first ∷ [] };
  time_txs = record { s_way = SortWay.time; tx_list = first ∷ [] };
}

purge_expired_txs_lem_example : purge_expired_txs pending 37 11 100 30 ≡ none
purge_expired_txs_lem_example = purge_expired_txs_lem pending 37 11 100 30 refl

Reach-PoolInv_example : PoolInv (Collect.add_tx new_collect_txs first).0
Reach-PoolInv_example = Reach-PoolInv (next start (Step.adds first (omega arith)))

-- The pool with one transaction, which the receiver has put into the lists.
abbrev one_pending : CollectTxs
one_pending = record (Collect.add_tx new_collect_txs first).0 {
  pending_tx_chan = [];
  pending_txs = pending;
}

one_pending_lem : receive (Collect.add_tx new_collect_txs first).0 ≡ some one_pending
unfolding receive Collect.add_tx topia.Common.ShrinkMap.get lookup new_collect_txs AccountTxs.add_tx
    new_account_tx_manager AccountTxs.accept topia.TxPool.Pending.add_tx Sorted.add_tx sort_search
    Sorted.insert_at
one_pending_lem = refl

Reach-progress_example :
    ((c' : CollectTxs) × (receive one_pending ≡ some c') × PoolInv c')
    × ((r : CollectTxs × Option TxWrapperUni) × (remove_tx one_pending "a" ≡ some r) × PoolInv r.0)
    × (purge_expired one_pending 37 11 100 30
        ≡ (if has_expired one_pending 37 11 100 30 then none else some one_pending))
    × IsBlocked (behind_purge one_pending)
Reach-progress_example =
    Reach-progress "a" 37 11 100 30
      (next (next start (Step.adds first (omega arith))) (Step.receives one_pending_lem))

-- At height 37 it has expired, and at height 38 it has not.
blocks : has_expired one_pending 37 11 100 30 ≡ true
blocks = refl

returns : has_expired one_pending 38 11 100 30 ≡ false
returns = refl
