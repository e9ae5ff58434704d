-- ===== src/TxPool/Sorted/Removal.antt =====
-- What `removeTx` takes out of a sorted list, and that the order stays.
use mathlib.Core.List.{Perm}
use mathlib.Core.List.Perm
use topia.Base.{
  ℕ, ◌≡◌, refl, ap, ◌⊎◌, inl, inr, String, false, List, [], ◌∷◌, Option, none, some, arith, All,
  Bool-cases, Option-cases,
}
use topia.Base.Eq.{◌==◌, string_eq, ==_iff}
use topia.TxPool.Wrapper.{TxWrapperUni}
use topia.TxPool.Sorted.{SortedTxList, remove_from, remove_tx}
use topia.TxPool.Sorted.Order.{Falls, key_of}

-- Removal: the first entry with the id goes, and nothing else.
pub remove_from-Falls :
    (key : TxWrapperUni → ℕ) (id : String) (xs : List TxWrapperUni)
    → Falls key xs
    → Falls key (remove_from id xs).1
unfolding remove_from
remove_from-Falls key id [] f = tt
remove_from-Falls key id (x ∷ []) f = ground arith
remove_from-Falls key id (x ∷ y ∷ []) f = ground arith
remove_from-Falls key id (x ∷ y ∷ z ∷ xs) f =
    ground (arith, remove_from-Falls key id (y ∷ z ∷ xs) f.1)

-- `removeTx` keeps the falling order, whether or not it finds the id.
pub remove_tx-Falls :
    (st : SortedTxList) (id : String)
    → Falls (key_of st.s_way) st.tx_list
    → Falls (key_of st.s_way) (remove_tx st id).0.tx_list
unfolding remove_tx
remove_tx-Falls st id f = remove_from-Falls (key_of st.s_way) id st.tx_list f

remove_from-found :
    (id : String) (xs : List TxWrapperUni) (w : TxWrapperUni)
    → (remove_from id xs).0 ≡ some w
    → (w.tx_id ≡ id) × Perm xs (w ∷ (remove_from id xs).1)
unfolding remove_from
remove_from-found id [] w e = cc
remove_from-found id (x ∷ xs) w e = elim (Bool-cases (x.tx_id == id)) [
  | inl hit ↦ (
    ground (arith, ==_iff x.tx_id id),
    rw (hit, remove_from) (Perm.cons' (ground arith) (Perm.refl xs)),
  )
  | inr miss ↦
      let (same, perm) = remove_from-found id xs w (ground arith) in
      (same, rw (miss, remove_from) (Perm.trans (Perm.cons x perm) (Perm.swap w x _)))
]

remove_from-missing :
    (id : String) (xs : List TxWrapperUni)
    → (remove_from id xs).0 ≡ none
    → ((remove_from id xs).1 ≡ xs) × All (λ x. (x.tx_id == id) ≡ false) xs
unfolding remove_from
remove_from-missing id [] e = (refl, tt)
remove_from-missing id (x ∷ xs) e = ground (arith, remove_from-missing id xs)

-- The two outcomes of a removal: with a wrapper, it has the id, and the list loses that entry only;
-- with none, the list is as it was and no entry has the id.
abbrev pub Removed : SortedTxList → String → SortedTxList × Option TxWrapperUni → Type 0
Removed st id r =
    ((w : TxWrapperUni) × (r.1 ≡ some w) × (w.tx_id ≡ id) × Perm st.tx_list (w ∷ r.0.tx_list))
    ⊎ ((r.1 ≡ none) × (r.0 ≡ st) × All (λ x. (x.tx_id == id) ≡ false) st.tx_list)

-- `removeTx` on every list: either it returns a wrapper with the id, and the list loses one entry, that
-- one; or it returns none, the list is unchanged, and no entry has the id.
pub remove_tx_lem : (st : SortedTxList) (id : String) → Removed st id (remove_tx st id)
unfolding remove_tx
remove_tx_lem st id = elim (Option-cases (remove_from id st.tx_list).0) [
  | inl e ↦
      let (same, absent) = remove_from-missing id st.tx_list e in
      inr (e, ap (λ (l : List TxWrapperUni). record st { tx_list = l }) same, absent)
  | inr (w, e) ↦ let (same, perm) = remove_from-found id st.tx_list w e in inl (w, e, same, perm)
]
