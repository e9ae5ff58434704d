-- ===== src/Execution/Scheduler/Tests.antt =====
-- Runs of the scheduler (execution/scheduler.go), with numbers for results.
use topia.Base.{ℕ, ◌≤◌, ◌≢◌, ◌≡◌, refl, All, none, some, List, [], ◌∷◌, true, false, inl, arith}
use topia.Execution.Scheduler.{
  Executed, Scheduler, CacheLimits, Ended, executed, invalid_version, execute_failed, panicked,
  new_execution_scheduler, composition_state_at_version, composition_state_of, execute_packed_tx,
  find_result,
}
use topia.Execution.Scheduler.Sound.{IsSound}
use topia.Execution.Scheduler.Commit.{CommitRun, commit_packed_tx}
use topia.Execution.Scheduler.Calls.{Call, executes, commits, call_all, call_all-IsSound}
use topia.Execution.Scheduler.Again.{execute_packed_tx-again}
use topia.Execution.Scheduler.States.{answer, composition_state_at_version-answer}

abbrev limits : CacheLimits
limits = record { max_prepare_msg_cache = 3; evicted_at_once = 1 }

fits : limits.evicted_at_once ≤ limits.max_prepare_msg_cache
fits = ground arith

abbrev commit_run : CommitRun
commit_run = record { latest_height = some 3; constructs = true; commits = true; marshals = true }

abbrev calls : List (Call ℕ)
calls =
    executes 4 (some 40)
    ∷ executes 5 none
    ∷ executes 5 (some 50)
    ∷ commits 4 4 commit_run
    ∷ executes 4 (some 41)
    ∷ executes 7 (some 70)
    ∷ executes 6 (some 60)
    ∷ executes 4 (some 42)
    ∷ []

-- The first item is gone after version 6, since the list is full.
ends :
    (call_all limits new_execution_scheduler calls).1
    ≡ executed 40
      ∷ execute_failed
      ∷ executed 50
      ∷ executed 40
      ∷ invalid_version
      ∷ executed 60
      ∷ invalid_version
      ∷ []
unfolding call_all execute_packed_tx commit_packed_tx find_result composition_state_of
    topia.Execution.Scheduler.Commit.mark_committed
ends = refl

call_all-IsSound_example :
    IsSound (call_all limits new_execution_scheduler calls).0
    × All (λ (end : Ended ℕ). end ≢ panicked) (call_all limits new_execution_scheduler calls).1
call_all-IsSound_example = call_all-IsSound limits fits calls (
  ground arith,
  (
    ground arith,
    (ground arith, (tt, (ground arith, (ground arith, (ground arith, (ground arith, tt)))))),
  ),
)

abbrev items : List (Executed ℕ)
items =
    record { state_version = 4; committed = true; packed_txs_rs = 40 }
    ∷ record { state_version = 5; committed = false; packed_txs_rs = 50 }
    ∷ []

composition_state_at_version-answer_example :
    composition_state_at_version 9 4 items ≡ answer (composition_state_of 4 items)
composition_state_at_version-answer_example =
    composition_state_at_version-answer 9 4 items (ground arith)

abbrev one_executed : Scheduler ℕ
one_executed = record {
  last_state_version = 4;
  exe_packed_count = 1;
  exe_packed_txs_list = record { state_version = 4; committed = false; packed_txs_rs = 40 } ∷ [];
}

first_executes :
    execute_packed_tx limits new_execution_scheduler 4 (some 40) ≡ (one_executed, executed 40)
unfolding execute_packed_tx
first_executes = refl

execute_packed_tx-again_example :
    execute_packed_tx limits one_executed 4 (some 41) ≡ (one_executed, executed 40)
execute_packed_tx-again_example =
    execute_packed_tx-again limits (ground arith) new_execution_scheduler one_executed 4 (some 40)
      (some 41) 40 (record { start = 0; consecutive = tt; ends = inl refl; bounded = ground arith })
      (ground arith) first_executes
