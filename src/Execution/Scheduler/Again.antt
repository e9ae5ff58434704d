-- ===== src/Execution/Scheduler/Again.antt =====
-- Executing a version again (execution/scheduler.go): the result that is there is returned.
use topia.Base.{
  ℕ, zero, suc, ◌+◌, ◌%◌, ◌≤◌, ◌<◌, ◌≡◌, refl, sym, ap, subst, ◌∙◌, Bool, true, false, Option, none,
  some, List, [], ◌∷◌, ◌++◌, if◌then◌else◌, not, leb, ◌=?◌, =?_iff, ◌&&◌, length, arith, inl, inr,
  Bool-cases, length-append,
}
use topia.Base.Words.{u64_mod, add_u64}
use topia.Execution.Scheduler.{
  u32_mod, Executed, Scheduler, CacheLimits, Ended, executed, invalid_version, back, find_result,
  evict, with_list, executed_item, pushed, execute_new, or_panics, execute_on, execute_packed_tx,
}
use topia.Execution.Scheduler.Sound.{Consecutive, back-version, Consecutive-push, IsSound}
use topia.Execution.Scheduler.Versions.{next_version, execute_on-Goes}

module _ {R : Type 0} where
  find_result-push :
      (start version : ℕ) (items : List (Executed R)) (result : R)
      → Consecutive start items
      → start + length items ≡ version
      → find_result version (items ++ executed_item version result ∷ []) ≡ some result
  unfolding find_result
  find_result-push start version [] result ordered next =
      let same : (version =? version) ≡ true = ground arith in rw (same) refl
  find_result-push start version (item ∷ items) result (here, ordered) next =
      let other : (item.state_version =? version) ≡ false = ground arith in
      rw (other) (find_result-push (suc start) version items result ordered (ground arith))

  -- Items before the version can go.
  find_result-evict :
      (n start version : ℕ) (items kept : List (Executed R))
      → Consecutive start items
      → start + n ≤ version
      → evict n items ≡ some kept
      → find_result version kept ≡ find_result version items
  unfolding find_result
  find_result-evict zero start version items kept ordered later e =
      ap (find_result version) (ground (arith))
  find_result-evict (suc n) start version [] kept ordered later e = ground arith
  find_result-evict (suc n) start version (item ∷ items) kept (here, ordered) later e =
      let other : (item.state_version =? version) ≡ false = ground arith in
      rw (other) (find_result-evict n (suc start) version items kept ordered (ground arith) e)

  find_result-range :
      (start version : ℕ) (items : List (Executed R)) (result : R)
      → Consecutive start items
      → find_result version items ≡ some result
      → (start ≤ version) × (version < start + length items)
  unfolding find_result
  find_result-range start version [] result ordered e = ground arith
  find_result-range start version (item ∷ items) result (here, ordered) e =
      elim (Bool-cases (item.state_version =? version)) [
        | inl same ↦ ground (arith, =?_iff item.state_version version)
        | inr other ↦
            let further : find_result version items ≡ some result = ground arith in
            let (low, high) = find_result-range (suc start) version items result ordered further in
            ground (arith, low, high)
      ]

  -- A version whose result is in the list is answered with it, and nothing changes.
  answers_found :
      (limits : CacheLimits) (s : Scheduler R) (version : ℕ) (execution : Option R) (result : R)
      (items : List (Executed R))
      → s.exe_packed_txs_list ≡ items
      → IsSound s
      → find_result version items ≡ some result
      → execute_on limits s version execution items ≡ (s, executed result)
  unfolding find_result
  answers_found limits s version execution result [] e sound found = ground arith
  answers_found limits s version execution result (first ∷ items) e sound found =
      let ordered = subst (Consecutive sound.start) e sound.consecutive in
      let (low, high) =
        find_result-range sound.start version (first ∷ items) result ordered found in
      let last = back-version sound.start first items ordered in
      let there : leb first.state_version version && leb version (back first items).state_version
          ≡ true =
        ground (arith, ordered.0, last, low, high) in
      (λ k.
        if there k
        then or_panics s (find_result version (first ∷ items))
        else if not (version =? add_u64 (back first items).state_version 1)
        then (s, invalid_version)
        else execute_new limits s version execution)
      ∙ ap (or_panics s) found

  executed_inj : (a b : R) → executed a ≡ executed b → a ≡ b
  executed_inj a b e = ground arith

  -- The result that is returned is the one in the list.
  abbrev Kept : ℕ → Scheduler R × Ended R → Type 0
  Kept version r =
      (result : R)
      → r.1 ≡ executed result
      → find_result version (r.0).exe_packed_txs_list ≡ some result

module _ {R : Type 0} (limits : CacheLimits)
    (spare : limits.evicted_at_once < limits.max_prepare_msg_cache) where
  pushed-Kept :
      (s : Scheduler R) (start version : ℕ) (result : R)
      → Consecutive start s.exe_packed_txs_list
      → start + length s.exe_packed_txs_list ≡ version
      → Kept version (pushed limits s version result)
  pushed-Kept s start version result ordered next =
      by_size (leb limits.max_prepare_msg_cache (length items)) refl
    where
      items : List (Executed R)
      items = s.exe_packed_txs_list ++ executed_item version result ∷ []

      count : ℕ
      count = (s.exe_packed_count + 1) % u32_mod

      s' : Scheduler R
      s' = record s {
        last_state_version = version;
        exe_packed_count = count;
        exe_packed_txs_list = items;
      }

      pushes : find_result version items ≡ some result
      pushes = find_result-push start version s.exe_packed_txs_list result ordered next

      size : length items ≡ suc (length s.exe_packed_txs_list)
      size = ground (arith, length-append s.exe_packed_txs_list (executed_item version result ∷ []))

      by_list :
          (o : Option (List (Executed R)))
          → ((kept : List (Executed R)) → o ≡ some kept → find_result version kept ≡ some result)
          → Kept version (with_list s' result o)
      by_list none finds other e = ground arith
      by_list (some kept) finds other e = finds kept refl ∙ ap (some) (executed_inj result other e)

      by_size :
          (full : Bool)
          → leb limits.max_prepare_msg_cache (length items) ≡ full
          → Kept version (
              with_list s' result (if full then evict limits.evicted_at_once items else some items))
      by_size false is =
          by_list (some items) (λ kept e. ap (find_result version) (ground (arith)) ∙ pushes)
      by_size true is = by_list (evict limits.evicted_at_once items) (λ kept e.
          find_result-evict limits.evicted_at_once start version items kept
            (Consecutive-push start s.exe_packed_txs_list (executed_item version result) ordered
              (sym next))
            (ground (arith, is, size, next, spare)) e
          ∙ pushes)

  execute_new-Kept :
      (s : Scheduler R) (start version : ℕ) (execution : Option R)
      → Consecutive start s.exe_packed_txs_list
      → start + length s.exe_packed_txs_list ≡ version
      → Kept version (execute_new limits s version execution)
  execute_new-Kept s start version none ordered next result e = ground arith
  execute_new-Kept s start version (some made) ordered next result e =
      pushed-Kept s start version made ordered next result e

  execute_on-Kept :
      (s : Scheduler R) (version : ℕ) (execution : Option R) (items : List (Executed R))
      → s.exe_packed_txs_list ≡ items
      → IsSound s
      → Kept version (execute_on limits s version execution items)
  execute_on-Kept s version execution [] e sound =
      by_test (not (s.last_state_version =? 0) && leb version s.last_state_version)
    where
      by_test :
          (stale : Bool)
          → Kept version
              (if stale then (s, invalid_version) else execute_new limits s version execution)
      by_test true result is = ground arith
      by_test false result is =
          execute_new-Kept s version version execution (subst (Consecutive version) (sym e) tt)
            ((λ k. version + length (e k)) ∙ ground arith) result is
  execute_on-Kept s version execution (first ∷ items) e sound =
      by_range (leb first.state_version version && leb version (back first items).state_version)
    where
      by_found :
          (o : Option R)
          → find_result version s.exe_packed_txs_list ≡ o
          → Kept version (or_panics s o)
      by_found none is result end = ground arith
      by_found (some found) is result end = is ∙ ap (some) (executed_inj found result end)

      by_next :
          (other : Bool)
          → not (version =? add_u64 (back first items).state_version 1) ≡ other
          → Kept version
              (if other then (s, invalid_version) else execute_new limits s version execution)
      by_next true is result end = ground arith
      by_next false is result end =
          execute_new-Kept s sound.start version execution sound.consecutive
            (next_version s version first items e sound is).0 result end

      by_range :
          (there : Bool)
          → Kept version (
              if there
              then or_panics s (find_result version (first ∷ items))
              else if not (version =? add_u64 (back first items).state_version 1)
              then (s, invalid_version)
              else execute_new limits s version execution)
      by_range true = by_found (find_result version (first ∷ items)) (ap (find_result version) e)
      by_range false = by_next (not (version =? add_u64 (back first items).state_version 1)) refl

  -- An execution that was done stands: the same version executed once more, with other transactions
  -- even, is answered with the first result, and the scheduler stays as it is. The scheduler is sound,
  -- as it is after any calls, the version is below the last uint64, and the cache evicts less than it holds.
  pub execute_packed_tx-again :
      (s s' : Scheduler R) (version : ℕ) (execution later : Option R) (result : R)
      → IsSound s
      → suc version < u64_mod
      → execute_packed_tx limits s version execution ≡ (s', executed result)
      → execute_packed_tx limits s' version later ≡ (s', executed result)
  unfolding execute_packed_tx
  execute_packed_tx-again s s' version execution later result sound bound e =
      let (sound', quiet, grows) =
        execute_on-Goes limits (ground (arith, spare)) s version execution s.exe_packed_txs_list
          refl sound bound in
      let kept =
        execute_on-Kept s version execution s.exe_packed_txs_list refl sound result
          (ap (λ (r : Scheduler R × Ended R). r.1) e) in
      answers_found limits s' version later result s'.exe_packed_txs_list refl
        (subst (λ (r : Scheduler R × Ended R). IsSound r.0) e sound')
        (subst
          (λ (r : Scheduler R × Ended R).
            find_result version (r.0).exe_packed_txs_list ≡ some result)
          e kept)
