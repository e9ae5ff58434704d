-- ===== src/TxPool/Sorted/Search.antt =====
-- Go's sort.Search, the binary search that `addTx` calls, with a predicate that may panic.
use topia.Base.{
  ℕ, zero, suc, ◌+◌, ◌/◌, ◌≤◌, ◌<◌, ◌≡◌, refl, Bool, true, false, Option, none, some, ltb, arith,
  ◌⊎◌, inl, inr, Bool-cases, ltb→lt, ap, ◌∙◌,
}

-- for i < j { h := (i + j) / 2; if !f(h) { i = h + 1 } else { j = h } }; the fuel bounds the rounds.
unfoldable pub search_loop : ℕ → (ℕ → Option Bool) → ℕ → ℕ → Option ℕ
search_loop zero f i j = some i
search_loop (suc n) f i j = elim (ltb i j) [
  | false ↦ some i
  | true ↦ elim (f ((i + j) / 2)) [
    | none ↦ none
    | some b ↦ elim b [
      | true ↦ search_loop n f i ((i + j) / 2)
      | false ↦ search_loop n f ((i + j) / 2 + 1) j
    ]
  ]
]

-- The range halves in each round, so its length is fuel enough.
unfoldable pub sort_search : ℕ → (ℕ → Option Bool) → Option ℕ
unfolding search_loop
sort_search n f = search_loop n f 0 n

-- What the index shows of the predicate: true there, unless it is the length; false just before.
pub record IsBoundary (n : ℕ) (f : ℕ → Option Bool) (r : ℕ) : Type 0 where
  pub within : r ≤ n
  pub at : (r ≡ n) ⊎ (f r ≡ some true)
  pub before : (q : ℕ) → r ≡ suc q → f q ≡ some false

-- The halving step leaves a range that is shorter, on either side.
half_bounds : (i j : ℕ) → i < j → (i ≤ (i + j) / 2) × ((i + j) / 2 < j)
half_bounds i j h = omega arith

module _ (n : ℕ) (f : ℕ → Option Bool) (total : (k : ℕ) → k < n → (b : Bool) × (f k ≡ some b)) where
  abbrev Finds : ℕ → ℕ → ℕ → Type 0
  Finds fuel i j = (r : ℕ) × (search_loop fuel f i j ≡ some r) × IsBoundary n f r

  search_loop-IsBoundary :
      (fuel i j : ℕ)
      → j ≤ n
      → i ≤ j
      → j ≤ i + fuel
      → (j ≡ n) ⊎ (f j ≡ some true)
      → ((q : ℕ) → i ≡ suc q → f q ≡ some false)
      → Finds fuel i j
  unfolding search_loop
  search_loop-IsBoundary zero i j hj hi hf at before =
      let e : i ≡ j = omega arith in
      (i, refl, record { within = omega arith; at = rw e at; before = before })
  search_loop-IsBoundary (suc fuel) i j hj hi hf at before = elim (Bool-cases (ltb i j)) [
    | inl lt ↦
        let mid = half_bounds i j (ltb→lt i j lt) in
        let (b, e) = total ((i + j) / 2) (omega arith) in
        elim (Bool-cases b) [
          | inl up ↦
              let here = e ∙ ap some up in
              let (r, p, w) =
                search_loop-IsBoundary fuel i ((i + j) / 2) (omega arith) mid.0 (omega arith)
                  (inr here) before in
              (r, rw (lt, here, search_loop) p, w)
          | inr low ↦
              let here = e ∙ ap some low in
              let (r, p, w) =
                search_loop-IsBoundary fuel ((i + j) / 2 + 1) j hj (omega arith) (omega arith) at
                  (λ q u. rw (← here) (ap f (omega arith))) in
              (r, rw (lt, here, search_loop) p, w)
        ]
    | inr ge ↦
        let e : i ≡ j = ground arith in
        (i, rw (ge, search_loop), record { within = omega arith; at = rw e at; before = before })
  ]

  -- With a predicate that never panics below `n`, the search returns an index at a boundary.
  pub sort_search-IsBoundary : (r : ℕ) × (sort_search n f ≡ some r) × IsBoundary n f r
  unfolding sort_search
  sort_search-IsBoundary =
      search_loop-IsBoundary n 0 n (omega arith) (omega arith) (omega arith) (inl refl)
        (λ q u. absurd (omega arith))
