-- ===== src/Execution/Scheduler/Sound.antt =====
-- The versions in the scheduler's list (execution/scheduler.go): one after the other, up to the last.
use topia.Base.{
  ℕ, zero, suc, ◌+◌, ◌≤◌, ◌<◌, ◌≡◌, refl, subst, some, List, [], ◌∷◌, ◌++◌, ◌=?◌, length, arith,
  inl, inr, ◌⊎◌, Bool-cases,
}
use topia.Base.Words.{u64_mod}
use topia.Execution.Scheduler.{Executed, Scheduler, back, find_result, evict}

module _ {R : Type 0} where
  -- The items' versions are the start and those that follow.
  abbrev pub Consecutive : ℕ → List (Executed R) → Type 0
  Consecutive start [] = Unit
  Consecutive start (item ∷ items) = (item.state_version ≡ start) × Consecutive (suc start) items

  pub find_result-found :
      (start version : ℕ) (items : List (Executed R))
      → Consecutive start items
      → start ≤ version
      → version < start + length items
      → (result : R) × (find_result version items ≡ some result)
  unfolding find_result
  find_result-found start version [] run low high = absurd (ground arith)
  find_result-found start version (item ∷ items) (here, run) low high =
      elim (Bool-cases (item.state_version =? version)) [
        | inl same ↦ (item.packed_txs_rs, rw (same) refl)
        | inr other ↦
            let (result, found) =
              find_result-found (suc start) version items run (ground arith) (ground arith) in
            (result, rw (other) found)
      ]

  pub back-version :
      (start : ℕ) (item : Executed R) (items : List (Executed R))
      → Consecutive start (item ∷ items)
      → (back item items).state_version ≡ start + length items
  back-version start item [] (here, run) = ground arith
  back-version start item (next ∷ items) (here, run) =
      ground (arith, back-version (suc start) next items run)

  pub Consecutive-push :
      (start : ℕ) (items : List (Executed R)) (item : Executed R)
      → Consecutive start items
      → item.state_version ≡ start + length items
      → Consecutive start (items ++ item ∷ [])
  Consecutive-push start [] item run e = (ground arith, tt)
  Consecutive-push start (first ∷ items) item (here, run) e =
      (here, Consecutive-push (suc start) items item run (ground arith))

  pub Consecutive-evict :
      (n start : ℕ) (items : List (Executed R))
      → Consecutive start items
      → n ≤ length items
      → (kept : List (Executed R)) × (evict n items ≡ some kept)
        × Consecutive (start + n) kept
        × (n + length kept ≡ length items)
  Consecutive-evict zero start items run enough =
      (items, refl, subst (λ k. Consecutive k items) (ground arith) run, ground arith)
  Consecutive-evict (suc n) start [] run enough = absurd (ground arith)
  Consecutive-evict (suc n) start (item ∷ items) (here, run) enough =
      let (kept, e, run', counts) = Consecutive-evict n (suc start) items run (ground arith) in
      (kept, e, subst (λ k. Consecutive k kept) (ground arith) run', ground (arith, counts))

  -- The list ends at the last version, if it holds any.
  pub record IsSound (s : Scheduler R) : Type 0 where
    pub start : ℕ
    pub consecutive : Consecutive start s.exe_packed_txs_list
    pub ends :
        (length s.exe_packed_txs_list ≡ 0)
        ⊎ (start + length s.exe_packed_txs_list ≡ suc s.last_state_version)
    pub bounded : suc s.last_state_version < u64_mod
