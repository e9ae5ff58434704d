-- ===== src/TxPool/Sorted/Mixed.antt =====
-- The mixed order of tx_wrapper_uni.go (gas price, height, time) and what insertion makes of it.
use topia.Base.{
  ℕ, zero, suc, ◌≢◌, ◌<◌, ◌≡◌, subst, ◌⊎◌, inl, inr, true, List, [], ◌∷◌, ◌++◌, some, arith, length,
  get_elem?, All, Option-cases,
}
use topia.Base.Eq.{string_eq}
use topia.TxPool.Wrapper.{TxWrapperUni, SortWay, less}
use topia.TxPool.Sorted.{SortedTxList, less_at, add_tx}
use topia.TxPool.Sorted.Order.{found_index, insert_at-splice, take-length, drop-length}

-- Two transactions of one height, where the dearer one came later, are each `Less` than the other
-- under the mixed way: that test is no order.
pub less_misc_both :
    (a b : TxWrapperUni)
    → a.height ≡ b.height
    → a.gas_price < b.gas_price
    → a.time_stamp < b.time_stamp
    → (less a SortWay.misc b ≡ some true) × (less b SortWay.misc a ≡ some true)
unfolding less
less_misc_both a b same dearer later = ground arith

All-at :
    (P : TxWrapperUni → Type 0) (xs : List TxWrapperUni) (i : ℕ) (x : TxWrapperUni)
    → All P xs
    → get_elem? xs i ≡ some x
    → P x
All-at P [] i x a e = absurd (ground arith)
All-at P (y ∷ xs) zero x a e = subst P (ground arith) a.0
All-at P (y ∷ xs) (suc i) x a e = All-at P xs i x a.1 e

-- Cheaper entries of other heights are not `Less` under the mixed way.
less_at-cheap :
    (xs : List TxWrapperUni) (w : TxWrapperUni) (i : ℕ)
    → All (λ x. (x.gas_price < w.gas_price) × (x.height ≢ w.height)) xs
    → less_at SortWay.misc xs w i ≢ some true
unfolding less_at less
less_at-cheap xs w i cheap t = elim (Option-cases (get_elem? xs i)) [
  | inl e ↦ absurd (ground arith)
  | inr (x, e) ↦ let c = All-at _ xs i x cheap e in absurd (ground arith)
]

-- In the mixed list, from which blocks are filled front to back, a transaction that pays more for gas
-- than every entry, at another height than each, goes to the very end.
add_tx-dear_last :
    (xs : List TxWrapperUni) (w : TxWrapperUni)
    → All (λ x. (x.gas_price < w.gas_price) × (x.height ≢ w.height)) xs
    → add_tx (record { s_way = SortWay.misc; tx_list = xs }) w
      ≡ some (record { s_way = SortWay.misc; tx_list = xs ++ w ∷ [] })
unfolding add_tx
add_tx-dear_last xs w cheap =
    let st : SortedTxList = record { s_way = SortWay.misc; tx_list = xs } in
    let (r, e, b) = found_index st w (λ u. cc) in
    let end : r ≡ length xs = end_of r b.at in
    rw (e, add_tx, insert_at-splice xs r w b.within, end, take-length xs, drop-length xs)
  where
    end_of : (r : ℕ) → (r ≡ length xs) ⊎ (less_at SortWay.misc xs w r ≡ some true) → r ≡ length xs
    end_of r (inl e) = e
    end_of r (inr t) = absurd (less_at-cheap xs w r cheap t)
