-- ===== src/TxPool/Sorted/Order.antt =====
-- The order that `addTx` keeps. An entry goes before the first one that is `Less`, so the entries
-- fall along the list in height, and in time stamp, for the two lists that are sorted by these.
use mathlib.Core.List.{Perm, perm_middle}
use topia.Base.{
  ℕ, zero, suc, ◌≢◌, ◌≤◌, ◌<◌, ◌≡◌, refl, ◌∙◌, ap, subst, ◌⊎◌, inl, inr, Bool, true, false, List,
  [], ◌∷◌, ◌++◌, Option, none, some, arith, length, get_elem?, take, drop, set, take-append-drop,
  Bool-cases, Option-cases, ◌=?◌, =?_iff, ltb,
}
use topia.Base.Eq.{string_eq}
use topia.TxPool.Wrapper.{TxWrapperUni, SortWay, less, less_misc}
use topia.TxPool.Sorted.Search.{sort_search, IsBoundary, sort_search-IsBoundary}
use topia.TxPool.Sorted.{SortedTxList, less_at, insert_at, add_tx}

module _ {ℓ} {A : Type ℓ} where
  -- The two writes of `addTx` put the entry between the two parts of the list.
  splice :
      (i : ℕ) (xs : List A) (w : A)
      → i < length xs
      → set (take (suc i) xs ++ drop i xs) i w ≡ take i xs ++ w ∷ drop i xs
  splice i [] w h = elim h [ ]
  splice zero (x ∷ xs) w h = refl
  splice (suc i) (x ∷ xs) w h = ap (◌∷◌ x) (splice i xs w (omega arith))

  pub take-length : (xs : List A) → take (length xs) xs ≡ xs
  take-length [] = refl
  take-length (x ∷ xs) = ap (◌∷◌ x) (take-length xs)

  pub drop-length : (xs : List A) → drop (length xs) xs ≡ []
  drop-length [] = refl
  drop-length (x ∷ xs) = drop-length xs

  get_elem?-lt : (i : ℕ) (xs : List A) → i < length xs → (x : A) × (get_elem? xs i ≡ some x)
  get_elem?-lt i [] h = elim h [ ]
  get_elem?-lt zero (x ∷ xs) h = (x, refl)
  get_elem?-lt (suc i) (x ∷ xs) h = get_elem?-lt i xs (omega arith)

  get_elem?-length : (xs : List A) → get_elem? xs (length xs) ≡ none
  get_elem?-length [] = refl
  get_elem?-length (x ∷ xs) = get_elem?-length xs

module _ {ℓ} {A : Type ℓ} (key : A → ℕ) where
  -- The first entry, if there is one, has a key of at most `n`, or of at least `n`.
  abbrev AtMost : ℕ → Option A → Type 0
  AtMost n none = Unit
  AtMost n (some y) = key y ≤ n

  abbrev AtLeast : ℕ → Option A → Type 0
  AtLeast n none = Unit
  AtLeast n (some y) = n ≤ key y

  -- Keys fall along the list.
  abbrev pub Falls : List A → Type 0
  Falls [] = Unit
  Falls (x ∷ xs) = AtMost (key x) (get_elem? xs 0) × Falls xs

  AtMost-trans : (m n : ℕ) (o : Option A) → m ≤ n → AtMost m o → AtMost n o
  AtMost-trans m n none h a = tt
  AtMost-trans m n (some y) h a = omega arith

  Falls-splice :
      (i : ℕ) (xs : List A) (w : A)
      → Falls xs
      → i ≤ length xs
      → AtMost (key w) (get_elem? xs i)
      → ((q : ℕ) → i ≡ suc q → AtLeast (key w) (get_elem? xs q))
      → Falls (take i xs ++ w ∷ drop i xs)
  Falls-splice zero xs w f h after before = (after, f)
  Falls-splice (suc i) [] w f h after before = (tt, tt)
  Falls-splice (suc zero) (x ∷ xs) w f h after before = (before 0 refl, (after, f.1))
  Falls-splice (suc (suc i)) (x ∷ []) w f h after before = absurd (omega arith)
  Falls-splice (suc (suc i)) (x ∷ y ∷ xs) w f h after before = (
    f.0,
    Falls-splice (suc i) (y ∷ xs) w f.1 (omega arith) after (λ q e. before (suc q) (ap suc e)),
  )

-- At an index of the list or at its end, the code's insertion splits the list there.
pub insert_at-splice :
    (xs : List TxWrapperUni) (i : ℕ) (w : TxWrapperUni)
    → i ≤ length xs
    → insert_at xs i w ≡ take i xs ++ w ∷ drop i xs
unfolding insert_at
insert_at-splice xs i w h = elim (Bool-cases (i =? length xs)) [
  | inl e ↦ let end = (=?_iff i (length xs)).0 e in rw e (rw (end, take-length xs, drop-length xs))
  | inr e ↦ rw e (splice i xs w (ground arith))
]

-- The two sort ways whose order is that of one number.
abbrev pub key_of : SortWay → TxWrapperUni → ℕ
key_of SortWay.time w = w.time_stamp
key_of _ w = w.height

abbrev pub HasKey : SortWay → Type 0
HasKey s = (s ≡ SortWay.height) ⊎ (s ≡ SortWay.time)

-- Every way but the unknown one gives an answer.
less-total :
    (s : SortWay) (x w : TxWrapperUni) → s ≢ SortWay.unknown → (b : Bool) × (less x s w ≡ some b)
unfolding less
less-total SortWay.unknown x w h = absurd (h refl)
less-total SortWay.misc x w h = (less_misc x w, refl)
less-total SortWay.height x w h = (ltb x.height w.height, refl)
less-total SortWay.time x w h = (ltb x.time_stamp w.time_stamp, refl)

less_at-total :
    (s : SortWay) (xs : List TxWrapperUni) (w : TxWrapperUni) (k : ℕ)
    → s ≢ SortWay.unknown
    → k < length xs
    → (b : Bool) × (less_at s xs w k ≡ some b)
unfolding less_at
less_at-total s xs w k h lt =
    let (x, e) = get_elem?-lt k xs lt in let (b, r) = less-total s x w h in (b, rw (e, less_at) r)

-- The answer of `Less` at an entry, as an order of the keys.
less-key :
    (s : SortWay) (x w : TxWrapperUni)
    → HasKey s
    → less x s w ≡ some (ltb (key_of s x) (key_of s w))
unfolding less
less-key SortWay.height x w h = refl
less-key SortWay.time x w h = refl
less-key SortWay.misc x w h = ground arith
less-key SortWay.unknown x w h = ground arith

-- The index that `addTx` finds, with what it shows of the entries around it.
pub found_index :
    (st : SortedTxList) (w : TxWrapperUni)
    → st.s_way ≢ SortWay.unknown
    → (r : ℕ) × (sort_search (length st.tx_list) (less_at st.s_way st.tx_list w) ≡ some r)
      × IsBoundary (length st.tx_list) (less_at st.s_way st.tx_list w) r
found_index st w known =
    sort_search-IsBoundary _ _ λ k lt. less_at-total st.s_way st.tx_list w k known lt

-- Under every sort way but the unknown one `addTx` succeeds and keeps the sort way, and the new list
-- holds the entries of the old one and the added one, each as often.
pub add_tx-perm :
    (st : SortedTxList) (w : TxWrapperUni)
    → st.s_way ≢ SortWay.unknown
    → (st' : SortedTxList) × (add_tx st w ≡ some st')
      × (st'.s_way ≡ st.s_way)
      × Perm st'.tx_list (w ∷ st.tx_list)
unfolding add_tx
add_tx-perm st w known =
    let xs = st.tx_list in
    let (r, e, b) = found_index st w known in
    (
      record st { tx_list = insert_at xs r w },
      rw (e, add_tx),
      refl,
      rw (insert_at-splice xs r w b.within)
          (rw (take-append-drop r xs) at (perm_middle {a = w} (take r xs) (drop r xs))),
    )

HasKey-known : (s : SortWay) → HasKey s → s ≢ SortWay.unknown
HasKey-known s h u = ground arith

-- Around the boundary the keys are on the right side of the new one.
after_boundary :
    (s : SortWay) (xs : List TxWrapperUni) (w : TxWrapperUni) (r : ℕ)
    → HasKey s
    → (r ≡ length xs) ⊎ (less_at s xs w r ≡ some true)
    → AtMost (key_of s) (key_of s w) (get_elem? xs r)
unfolding less_at
after_boundary s xs w r h (inl e) = rw (e, get_elem?-length xs) tt
after_boundary s xs w r h (inr t) = elim (Option-cases (get_elem? xs r)) [
  | inl e ↦ rw e tt
  | inr (y, e) ↦ rw e (ground (arith, less-key s y w h))
]

before_boundary :
    (s : SortWay) (xs : List TxWrapperUni) (w : TxWrapperUni) (q : ℕ)
    → HasKey s
    → less_at s xs w q ≡ some false
    → AtLeast (key_of s) (key_of s w) (get_elem? xs q)
unfolding less_at
before_boundary s xs w q h t = elim (Option-cases (get_elem? xs q)) [
  | inl e ↦ rw e tt
  | inr (y, e) ↦ rw e (ground (arith, less-key s y w h))
]

add_tx-Falls :
    (st st' : SortedTxList) (w : TxWrapperUni)
    → HasKey st.s_way
    → Falls (key_of st.s_way) st.tx_list
    → add_tx st w ≡ some st'
    → Falls (key_of st'.s_way) st'.tx_list
unfolding add_tx
add_tx-Falls st st' w h f e =
    let xs = st.tx_list in
    let (r, found, b) = found_index st w (HasKey-known st.s_way h) in
    let made : add_tx st w ≡ some (record st { tx_list = insert_at xs r w }) = rw (found, add_tx) in
    let same : record st { tx_list = insert_at xs r w } ≡ st' = cc in
    subst (λ (s : SortedTxList). Falls (key_of s.s_way) s.tx_list) same
      (rw (insert_at-splice xs r w b.within) (
        Falls-splice (key_of st.s_way) r xs w f b.within (after_boundary st.s_way xs w r h b.at)
          (λ q u. before_boundary st.s_way xs w q h (b.before q u))))

-- In the lists that are sorted by height or by time, with the entries in falling order of that number,
-- `addTx` succeeds, keeps that order, and adds the one entry to those of the list.
pub add_tx-ordered :
    (s : SortWay) (st : SortedTxList) (w : TxWrapperUni)
    → HasKey s
    → st.s_way ≡ s
    → Falls (key_of s) st.tx_list
    → (st' : SortedTxList) × (add_tx st w ≡ some st')
      × (st'.s_way ≡ s)
      × Falls (key_of s) st'.tx_list
      × Perm st'.tx_list (w ∷ st.tx_list)
add_tx-ordered s st w h way f =
    let h' : HasKey st.s_way = rw way h in
    let (st', e, same, perm) = add_tx-perm st w (HasKey-known st.s_way h') in
    let way' = same ∙ way in
    (st', e, way', rw way' at (add_tx-Falls st st' w h' (rw way f) e), perm)
