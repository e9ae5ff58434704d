-- ===== src/Execution/Scheduler/Versions.antt =====
-- Executing with the scheduler (execution/scheduler.go): its versions stay one after the other.
use topia.Base.{
  ℕ, suc, ◌+◌, ◌%◌, ◌≤◌, ◌<◌, ◌≡◌, ◌≢◌, refl, sym, ap, subst, ◌∙◌, Bool, true, false, Option, none,
  some, List, [], ◌∷◌, ◌++◌, if◌then◌else◌, not, leb, ◌=?◌, ◌&&◌, length, arith, inl, inr,
  length-append, =?_iff,
}
use topia.Base.Words.{u64_mod, add_u64}
use topia.Execution.Scheduler.{
  u32_mod, Executed, Scheduler, CacheLimits, Ended, invalid_version, panicked, back, find_result,
  evict, with_list, executed_item, pushed, execute_new, or_panics, execute_on,
}
use topia.Execution.Scheduler.Sound.{
  Consecutive, find_result-found, back-version, Consecutive-push, Consecutive-evict, IsSound,
}

module _ {R : Type 0} where
  -- A version that follows on the last item's is the one after the list.
  pub next_version :
      (s : Scheduler R) (version : ℕ) (first : Executed R) (items : List (Executed R))
      → s.exe_packed_txs_list ≡ first ∷ items
      → (sound : IsSound s) → not (version =? add_u64 (back first items).state_version 1) ≡ false
      → (sound.start + length s.exe_packed_txs_list ≡ version) × (s.last_state_version ≤ version)
  next_version s version first items e sound is =
      let ordered = subst (Consecutive sound.start) e sound.consecutive in
      let size : length s.exe_packed_txs_list ≡ suc (length items) = ap length e in
      let last = back-version sound.start first items ordered in
      let is_last : sound.start + length items ≡ s.last_state_version = elim sound.ends [
        | inl empty ↦ ground (arith, size)
        | inr ends ↦ ground (arith, size, ends)
      ] in
      let next : version ≡ suc s.last_state_version = ground (
        arith,
        is,
        =?_iff version (add_u64 (back first items).state_version 1),
        last,
        is_last,
        sound.bounded,
      ) in
      (ground (arith, next, size, is_last), ground (arith, next))

module _ {R : Type 0} (limits : CacheLimits)
    (fits : limits.evicted_at_once ≤ limits.max_prepare_msg_cache) where
  -- A sound scheduler, no panic, and a last version that is not less than before.
  abbrev pub Goes : ℕ → Scheduler R × Ended R → Type 0
  Goes last r = IsSound r.0 × (r.1 ≢ panicked) × (last ≤ (r.0).last_state_version)

  pushed-Goes :
      (s : Scheduler R) (start version : ℕ) (result : R)
      → Consecutive start s.exe_packed_txs_list
      → start + length s.exe_packed_txs_list ≡ version
      → suc version < u64_mod
      → s.last_state_version ≤ version
      → Goes s.last_state_version (pushed limits s version result)
  pushed-Goes s start version result run next bound later =
      by_size (leb limits.max_prepare_msg_cache (length items)) refl
    where
      items : List (Executed R)
      items = s.exe_packed_txs_list ++ executed_item version result ∷ []

      count : ℕ
      count = (s.exe_packed_count + 1) % u32_mod

      s' : Scheduler R
      s' = record s {
        last_state_version = version;
        exe_packed_count = count;
        exe_packed_txs_list = items;
      }

      run' : Consecutive start items
      run' =
          Consecutive-push start s.exe_packed_txs_list (executed_item version result) run (sym next)

      size : length items ≡ suc (length s.exe_packed_txs_list)
      size = ground (arith, length-append s.exe_packed_txs_list (executed_item version result ∷ []))

      by_size :
          (full : Bool)
          → leb limits.max_prepare_msg_cache (length items) ≡ full
          → Goes s.last_state_version (
              with_list s' result (if full then evict limits.evicted_at_once items else some items))
      by_size false e = (
        record {
          start = start;
          consecutive = run';
          ends = inr (ground (arith, size));
          bounded = bound;
        },
        ground arith,
        later,
      )
      by_size true e =
          let (kept, gives, run'', counts) =
            Consecutive-evict limits.evicted_at_once start items run' (ground (arith, fits)) in
          subst (λ o. Goes s.last_state_version (with_list s' result o)) (sym gives)
            (
              record {
                start = start + limits.evicted_at_once;
                consecutive = run'';
                ends = inr (ground (arith, size, counts));
                bounded = bound;
              },
              ground arith,
              later,
            )

  run-Goes :
      (s : Scheduler R) (start version : ℕ) (execution : Option R)
      → IsSound s
      → Consecutive start s.exe_packed_txs_list
      → start + length s.exe_packed_txs_list ≡ version
      → suc version < u64_mod
      → s.last_state_version ≤ version
      → Goes s.last_state_version (execute_new limits s version execution)
  run-Goes s start version none sound run next bound later = (sound, ground arith, ground arith)
  run-Goes s start version (some result) sound run next bound later =
      pushed-Goes s start version result run next bound later

  pub execute_on-Goes :
      (s : Scheduler R) (version : ℕ) (execution : Option R) (items : List (Executed R))
      → s.exe_packed_txs_list ≡ items
      → IsSound s
      → suc version < u64_mod
      → Goes s.last_state_version (execute_on limits s version execution items)
  execute_on-Goes s version execution [] e sound bound =
      by_test (not (s.last_state_version =? 0) && leb version s.last_state_version) refl
    where
      by_test :
          (stale : Bool)
          → (not (s.last_state_version =? 0) && leb version s.last_state_version) ≡ stale
          → Goes s.last_state_version
              (if stale then (s, invalid_version) else execute_new limits s version execution)
      by_test true is = (sound, ground arith, ground arith)
      by_test false is =
          run-Goes s version version execution sound (subst (Consecutive version) (sym e) tt)
            ((λ k. version + length (e k)) ∙ ground arith) bound
            (ground (arith, is, =?_iff s.last_state_version 0))
  execute_on-Goes s version execution (first ∷ items) e sound bound =
      by_range (leb first.state_version version && leb version (back first items).state_version)
        refl
    where
      ordered : Consecutive sound.start (first ∷ items)
      ordered = subst (Consecutive sound.start) e sound.consecutive

      last : (back first items).state_version ≡ sound.start + length items
      last = back-version sound.start first items ordered

      found :
          leb first.state_version version && leb version (back first items).state_version ≡ true
          → (result : R) × (find_result version (first ∷ items) ≡ some result)
      found is =
          find_result-found sound.start version (first ∷ items) ordered
            (ground (arith, is, ordered.0)) (ground (arith, is, last))

      by_next :
          (other : Bool)
          → not (version =? add_u64 (back first items).state_version 1) ≡ other
          → Goes s.last_state_version
              (if other then (s, invalid_version) else execute_new limits s version execution)
      by_next true is = (sound, ground arith, ground arith)
      by_next false is =
          let (next, later) = next_version s version first items e sound is in
          run-Goes s sound.start version execution sound sound.consecutive next bound later

      by_range :
          (there : Bool)
          → leb first.state_version version && leb version (back first items).state_version ≡ there
          → Goes s.last_state_version (
              if there
              then or_panics s (find_result version (first ∷ items))
              else if not (version =? add_u64 (back first items).state_version 1)
              then (s, invalid_version)
              else execute_new limits s version execution)
      by_range true is =
          let (result, finds) = found is in
          subst (λ o. Goes s.last_state_version (or_panics s o)) (sym finds)
            (sound, ground arith, ground arith)
      by_range false is = by_next (not (version =? add_u64 (back first items).state_version 1)) refl
