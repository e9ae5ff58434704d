-- ===== src/TxPool/Sorted/Pick.antt =====
-- What `pickTxs` hands to a block: the longest head of the list whose sizes fit the block.
use topia.Base.{
  ℕ, suc, ◌+◌, ◌≤◌, ◌<◌, ◌≡◌, refl, ◌⊎◌, inl, inr, List, [], ◌∷◌, arith, length, take, map, ltb,
  Bool-cases, ap,
}
use topia.TxPool.Wrapper.{TxWrapperUni}
use topia.TxPool.Sorted.{SortedTxList, pick_loop, pick_txs}

abbrev pub total_size : List TxWrapperUni → ℕ
total_size [] = 0
total_size (x ∷ xs) = x.size + total_size xs

-- `n` entries are picked: they fit, and either they are all or one more would not fit.
pub record Picks (limit : ℕ) (used : ℕ) (xs : List TxWrapperUni) (n : ℕ) : Type 0 where
  pub fits : used + total_size (take n xs) ≤ limit
  pub longest : (n ≡ length xs) ⊎ (limit < used + total_size (take (suc n) xs))

pick_loop-Picks :
    (limit used : ℕ) (xs : List TxWrapperUni)
    → used ≤ limit
    → (n : ℕ) × (pick_loop limit used xs ≡ map (λ x. x.orgin_tx) (take n xs))
      × Picks limit used xs n
unfolding pick_loop
pick_loop-Picks limit used [] h = (0, refl, record { fits = omega arith; longest = inl refl })
pick_loop-Picks limit used (x ∷ xs) h = elim (Bool-cases (ltb limit (used + x.size))) [
  | inl full ↦ (0, rw full, record { fits = omega arith; longest = inr (ground arith) })
  | inr room ↦
      let (n, e, p) = pick_loop-Picks limit (used + x.size) xs (ground arith) in
      (
        suc n,
        rw room (ap (◌∷◌ x.orgin_tx) e),
        record { fits = omega (arith, p.fits); longest = ground (arith, p.longest) },
      )
]

-- `pickTxs` returns the first transactions of the list, in its order, as many as fit the block's
-- bytes: their sizes fit, and either the list ends there or the next one would pass the bound. The
-- gas bound plays no part.
pub pick_txs-Picks :
    (st : SortedTxList) (max_bytes max_gas : ℕ)
    → (n : ℕ) × (pick_txs st max_bytes max_gas ≡ map (λ x. x.orgin_tx) (take n st.tx_list))
      × Picks max_bytes 0 st.tx_list n
unfolding pick_txs
pick_txs-Picks st max_bytes max_gas = pick_loop-Picks max_bytes 0 st.tx_list (omega arith)
