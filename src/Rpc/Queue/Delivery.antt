-- ===== src/Rpc/Queue/Delivery.antt =====
-- The messages on their way from the server, which enqueues them, to the goroutine of the
-- subscription, which takes them out of the channel and sends them (api/rpc/subscription.go).
use topia.Base.{
  ◌≤◌, ◌≡◌, refl, sym, ap, subst, ◌∙◌, inl, inr, Option, none, some, List, [], ◌∷◌, ◌++◌, arith,
  ◌=?◌, if◌then◌else◌, length, length-append, Bool-cases,
}
use topia.Base.Map.{or_else}
use topia.Rpc.Queue.{
  Node, Queue, Outcome, done, full, panicked, max_sub_queue_length, new_queue, enqueue, remove_head,
}
use topia.Rpc.Queue.Chain.{first, queue_of, removed, enqueue-queue, remove_head-queue}

module _ (M : Type 0) where
  -- `take` receives a message from the channel and sends it on, `drop` is the removeHead after it.
  pub data Action : Type 0 where
    push : M → Action
    take : Action
    drop : Action

  -- `sent` is what went out, in order.
  pub record Wire : Type 0 where
    pub queue : Queue M
    pub sent : List M

module _ {M : Type 0} where
  -- An error of enqueue is printed and passed over; without a message in the channel the goroutine
  -- waits.
  abbrev pub keep : List M → Queue M → Outcome M → Option (Wire M)
  keep sent q (done q') = some (record { queue = q'; sent = sent })
  keep sent q full = some (record { queue = q; sent = sent })
  keep sent q panicked = none

  abbrev pub taken : Wire M → Option M → Wire M
  taken w none = w
  taken w (some m) = record {
    queue = record (w.queue) { out_buf = none };
    sent = w.sent ++ (m ∷ []);
  }

  abbrev pub act : Wire M → Action M → Option (Wire M)
  act w (push m) = keep w.sent w.queue (enqueue m w.queue)
  act w take = some (taken w w.queue.out_buf)
  act w drop = keep w.sent w.queue (remove_head w.queue)

  unfoldable pub run : List (Action M) → Wire M → Option (Wire M)
  run [] w = some w
  run (a ∷ actions) w = elim (act w a) [ none ↦ none | some w' ↦ run actions w' ]

  abbrev pub start : Wire M
  start = record { queue = new_queue; sent = [] }

  -- The queue is a chain of at most `max_sub_queue_length` messages.
  abbrev pub IsBounded : Wire M → Type 0
  IsBounded w =
      (past : List (Node M)) × (xs : List M) × (out : Option M) × (w.queue ≡ queue_of past xs out)
      × (length xs ≤ max_sub_queue_length)

  -- A step that does not panic and keeps the bound.
  abbrev pub Kept : Option (Wire M) → Type 0
  Kept none = ¬ Unit {0}
  Kept (some w) = IsBounded w

  act-Kept :
      (sent : List M) (past : List (Node M)) (xs : List M) (out : Option M) (a : Action M)
      → length xs ≤ max_sub_queue_length
      → Kept (act (record { queue = queue_of past xs out; sent = sent }) a)
  act-Kept sent past xs out (push m) small = elim (Bool-cases (length xs =? max_sub_queue_length)) [
    | inl at ↦ rw (enqueue-queue m past xs out, at) (past, xs, out, refl, small)
    | inr below ↦
        rw (enqueue-queue m past xs out, below)
          (past, xs ++ (m ∷ []), _, refl, ground (arith, length-append xs (m ∷ [])))
  ]
  act-Kept sent past xs none take small = (past, xs, none, refl, small)
  act-Kept sent past xs (some m) take small = (past, xs, none, refl, small)
  act-Kept sent past [] out drop small = unfold remove_head in (past, [], out, refl, small)
  act-Kept sent past (x ∷ xs) out drop small =
      rw (remove_head-queue past x xs out) (removed x xs past, xs, _, refl, omega arith)

  run-Kept :
      (actions : List (Action M)) (sent : List M) (past : List (Node M)) (xs : List M)
      (out : Option M)
      → length xs ≤ max_sub_queue_length
      → Kept (run actions (record { queue = queue_of past xs out; sent = sent }))
  unfolding run
  run-Kept [] sent past xs out small = (past, xs, out, refl, small)
  run-Kept (a ∷ actions) sent past xs out small =
      onward (act (record { queue = queue_of past xs out; sent = sent }) a)
        (act-Kept sent past xs out a small)
        λ sent' past' xs' out' small'. run-Kept actions sent' past' xs' out' small'
    where
      onward :
          (w : Option (Wire M))
          → Kept w
          → ((sent : List M) (past : List (Node M)) (xs : List M) (out : Option M)
              → length xs ≤ max_sub_queue_length
              → Kept (run actions (record { queue = queue_of past xs out; sent = sent })))
          → Kept (elim w [ none ↦ none | some w' ↦ run actions w' ])
      onward none kept go = kept
      onward (some w) (past, xs, out, e, small) go =
          subst (λ q. Kept (run actions (record { queue = q; sent = w.sent }))) (sym e)
            (go w.sent past xs out small)

  -- However the server and the goroutine interleave, no step panics, and the queue stays a chain
  -- of at most `max_sub_queue_length` messages.
  pub run-start-Kept : (actions : List (Action M)) → Kept (run actions start)
  run-start-Kept actions = run-Kept actions [] [] [] none (omega arith)

  -- The same server and goroutine, where nothing is enqueued between a take and its drop.
  abbrev pub calls : List (Option M) → List (Action M)
  calls [] = []
  calls (some m ∷ steps) = push m ∷ calls steps
  calls (none ∷ steps) = take ∷ drop ∷ calls steps

  -- A first-in first-out queue with a bound: what was sent and what waits.
  abbrev pub fifo : List (Option M) → List M → List M → List M × List M
  fifo [] sent xs = (sent, xs)
  fifo (some m ∷ steps) sent xs =
      if length xs =? max_sub_queue_length
      then fifo steps sent xs
      else fifo steps sent (xs ++ (m ∷ []))
  fifo (none ∷ steps) sent [] = fifo steps sent []
  fifo (none ∷ steps) sent (x ∷ xs) = fifo steps (sent ++ (x ∷ [])) xs

  -- The wire shows what the abstract queue does.
  abbrev pub Shows : List M × List M → Option (Wire M) → Type 0
  Shows spec none = ¬ Unit {0}
  Shows spec (some w) =
      (w.sent ≡ spec.0) × ((past : List (Node M)) × (w.queue ≡ queue_of past spec.1 (first spec.1)))

  first-append :
      (m : M) (xs : List M) → or_else (first xs) (first (xs ++ (m ∷ []))) ≡ first (xs ++ (m ∷ []))
  first-append m [] = refl
  first-append m (x ∷ xs) = refl

  run_idle :
      (actions : List (Action M)) (sent : List M) (past : List (Node M))
      → run (take ∷ drop ∷ actions) (record { queue = queue_of past [] none; sent = sent })
        ≡ run actions (record { queue = queue_of past [] none; sent = sent })
  unfolding run remove_head
  run_idle actions sent past = refl

  abbrev pub run_kept : List (Action M) → List M → Queue M → Outcome M → Option (Wire M)
  run_kept actions sent q r = elim (keep sent q r) [ none ↦ none | some w ↦ run actions w ]

  run_served :
      (actions : List (Action M)) (sent : List M) (past : List (Node M)) (x : M) (xs : List M)
      → run
          (take ∷ drop ∷ actions)
          (record { queue = queue_of past (x ∷ xs) (some x); sent = sent })
        ≡ run actions
            (record { queue = queue_of (removed x xs past) xs (first xs); sent = sent ++ (x ∷ []) })
  unfolding run
  run_served actions sent past x xs =
      ap (run_kept actions (sent ++ (x ∷ [])) (queue_of past (x ∷ xs) none))
        (remove_head-queue past x xs none)

  run_pushed :
      (actions : List (Action M)) (sent : List M) (past : List (Node M)) (m : M) (xs : List M)
      → run (push m ∷ actions) (record { queue = queue_of past xs (first xs); sent = sent })
        ≡ run_kept actions sent (queue_of past xs (first xs)) (
            if length xs =? max_sub_queue_length
            then full
            else done (queue_of past (xs ++ (m ∷ [])) (first (xs ++ (m ∷ [])))))
  unfolding run
  run_pushed actions sent past m xs =
      ap (run_kept actions sent (queue_of past xs (first xs))) (enqueue-queue m past xs (first xs))
      ∙ ap
          (λ out. run_kept actions sent (queue_of past xs (first xs)) (
            if length xs =? max_sub_queue_length
            then full
            else done (queue_of past (xs ++ (m ∷ [])) out)))
          (first-append m xs)

  run-Shows :
      (steps : List (Option M)) (sent : List M) (past : List (Node M)) (xs : List M)
      → Shows
          (fifo steps sent xs)
          (run (calls steps) (record { queue = queue_of past xs (first xs); sent = sent }))
  unfolding run
  run-Shows [] sent past xs = (refl, (past, refl))
  run-Shows (some m ∷ steps) sent past xs =
      subst (Shows (fifo (some m ∷ steps) sent xs)) (sym (run_pushed (calls steps) sent past m xs))
        (elim (Bool-cases (length xs =? max_sub_queue_length)) [
          | inl at ↦ rw at (run-Shows steps sent past xs)
          | inr below ↦ rw below (run-Shows steps sent past (xs ++ (m ∷ [])))
        ])
  run-Shows (none ∷ steps) sent past [] =
      subst (Shows (fifo steps sent [])) (sym (run_idle (calls steps) sent past))
        (run-Shows steps sent past [])
  run-Shows (none ∷ steps) sent past (x ∷ xs) =
      subst (Shows (fifo steps (sent ++ (x ∷ [])) xs))
        (sym (run_served (calls steps) sent past x xs))
        (run-Shows steps (sent ++ (x ∷ [])) (removed x xs past) xs)

  -- Where nothing is enqueued between a take and its drop, the goroutine sends the messages that
  -- were accepted in their order, each once: the pointers and the channel behave as a bounded
  -- first-in first-out queue.
  pub run-calls-Shows :
      (steps : List (Option M)) → Shows (fifo steps [] []) (run (calls steps) start)
  run-calls-Shows steps = run-Shows steps [] [] []
