-- ===== src/Execution/Scheduler/Calls.antt =====
-- The scheduler (execution/scheduler.go) under its two operations that change it, in any order.
use topia.Base.{ℕ, suc, ◌≤◌, ◌<◌, ◌≢◌, refl, List, [], ◌∷◌, Option, All, inl, arith}
use topia.Base.Words.{u64_mod}
use topia.Execution.Scheduler.{
  Scheduler, CacheLimits, Ended, panicked, execute_packed_tx, execute_on, new_execution_scheduler,
}
use topia.Execution.Scheduler.Sound.{IsSound}
use topia.Execution.Scheduler.Versions.{execute_on-Goes}
use topia.Execution.Scheduler.Commit.{CommitRun, commit_packed_tx, commit_packed_tx-IsSound}

-- A version that is executed, with what executing gives, or one that is committed, with its block's height.
pub data Call (R : Type 0) : Type 0 where
  executes : ℕ → Option R → Call R
  commits : ℕ → ℕ → CommitRun → Call R

module _ {R : Type 0} where
  -- An executed version is below the last uint64.
  abbrev pub IsBounded : Call R → Type 0
  IsBounded (executes version execution) = suc version < u64_mod
  IsBounded (commits version height run) = Unit

  -- The scheduler after the calls, and how the executions ended.
  unfoldable pub call_all : CacheLimits → Scheduler R → List (Call R) → Scheduler R × List (Ended R)
  call_all limits s [] = (s, [])
  call_all limits s (executes version execution ∷ calls) =
      let (s', end) = execute_packed_tx limits s version execution in
      let (s'', ends) = call_all limits s' calls in (s'', end ∷ ends)
  call_all limits s (commits version height run ∷ calls) =
      call_all limits (commit_packed_tx s version height run).0 calls

module _ {R : Type 0} (limits : CacheLimits)
    (fits : limits.evicted_at_once ≤ limits.max_prepare_msg_cache) where
  call_all-from :
      (calls : List (Call R)) (s : Scheduler R)
      → IsSound s
      → All IsBounded calls
      → IsSound (call_all limits s calls).0
        × All (λ (end : Ended R). end ≢ panicked) (call_all limits s calls).1
  unfolding call_all execute_packed_tx
  call_all-from [] s sound bounds = (sound, tt)
  call_all-from (executes version execution ∷ calls) s sound (bound, bounds) =
      let (sound', quiet, later) =
        execute_on-Goes limits fits s version execution s.exe_packed_txs_list refl sound bound in
      let (sound'', quiets) =
        call_all-from calls (execute_on limits s version execution s.exe_packed_txs_list).0 sound'
          bounds in
      (sound'', (quiet, quiets))
  call_all-from (commits version height run ∷ calls) s sound (bound, bounds) =
      call_all-from calls (commit_packed_tx s version height run).0
        (commit_packed_tx-IsSound s version height run sound) bounds

  -- Whatever is executed and committed with a new scheduler, in whatever order and with whatever
  -- success: no execution panics, the versions in the list are one after the other, and the last of
  -- them is the last version. Versions stay below the last uint64, and no more is evicted at once than
  -- the cache holds.
  pub call_all-IsSound :
      (calls : List (Call R))
      → All IsBounded calls
      → IsSound (call_all limits new_execution_scheduler calls).0
        × All (λ (end : Ended R). end ≢ panicked) (call_all limits new_execution_scheduler calls).1
  call_all-IsSound calls bounds =
      call_all-from calls new_execution_scheduler
        (record { start = 0; consecutive = tt; ends = inl refl; bounded = ground arith }) bounds
