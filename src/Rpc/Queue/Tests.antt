-- ===== src/Rpc/Queue/Tests.antt =====
-- Runs of the subscription queue (api/rpc/queue.go).
use topia.Base.{ℕ, [], ◌∷◌, ◌++◌, refl, arith, none, some}
use topia.Rpc.Queue.Delivery.{
  push, take, drop, start, run, Kept, run-start-Kept, calls, fifo, Shows, run-calls-Shows,
}
use topia.Rpc.Queue.Overtaken.{overtaking, run-overtaken}

run-start-Kept_example : Kept (run {M = ℕ} (push 1 ∷ take ∷ push 2 ∷ drop ∷ []) start)
run-start-Kept_example = run-start-Kept (push 1 ∷ take ∷ push 2 ∷ drop ∷ [])

-- Messages 1 and 2 wait, and 3 comes between the take of 1 and its drop.
run-overtaken_example :
    Shows {M = ℕ} (1 ∷ 1 ∷ [], 3 ∷ []) (run (calls (some 1 ∷ some 2 ∷ []) ++ overtaking 3) start)
run-overtaken_example = run-overtaken (some 1 ∷ some 2 ∷ []) 1 3 (2 ∷ []) refl (ground arith)

run-calls-Shows_example :
    Shows {M = ℕ}
      (fifo (some 1 ∷ some 2 ∷ none ∷ []) [] [])
      (run (calls (some 1 ∷ some 2 ∷ none ∷ [])) start)
run-calls-Shows_example = run-calls-Shows (some 1 ∷ some 2 ∷ none ∷ [])
