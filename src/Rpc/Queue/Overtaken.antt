-- ===== src/Rpc/Queue/Overtaken.antt =====
-- A message that is enqueued between the receipt of another and its removal (api/rpc/queue.go,
-- api/rpc/subscription.go).
use topia.Base.{
  suc, ◌<◌, ◌≡◌, refl, sym, ap, subst, ◌∙◌, false, Option, none, some, List, [], ◌∷◌, ◌++◌, arith,
  ◌=?◌, if◌then◌else◌, length, drop,
}
use topia.Rpc.Queue.{Node, done, full, max_sub_queue_length}
use topia.Rpc.Queue.Chain.{first, queue_of, removed, enqueue-queue, remove_head-queue}
use topia.Rpc.Queue.Delivery.{
  Action, push, take, Wire, act, run, run_kept, start, calls, fifo, Shows, run-calls-Shows,
}

module _ {M : Type 0} where
  abbrev wire : List (Node M) → List M → Option M → List M → Wire M
  wire past xs out sent = record { queue = queue_of past xs out; sent = sent }

  abbrev then_run : List (Action M) → Option (Wire M) → Option (Wire M)
  then_run actions none = none
  then_run actions (some w) = run actions w

  run_append :
      (before after : List (Action M)) (w : Wire M)
      → run (before ++ after) w ≡ then_run after (run before w)
  unfolding run
  run_append [] after w = refl
  run_append (a ∷ before) after w = onward (act w a) (run_append before after)
    where
      onward :
          (o : Option (Wire M))
          → ((w : Wire M) → run (before ++ after) w ≡ then_run after (run before w))
          → elim o [ none ↦ none | some w' ↦ run (before ++ after) w' ]
            ≡ then_run after (elim o [ none ↦ none | some w' ↦ run before w' ])
      onward none go = refl
      onward (some w') go = go w'

  -- A take, an enqueue, the drop of the take, and one more take with its drop.
  abbrev pub overtaking : M → List (Action M)
  overtaking n = take ∷ push n ∷ Action.drop ∷ take ∷ Action.drop ∷ []

  overtaken_from :
      (past : List (Node M)) (x y n : M) (xs rest sent : List M)
      → (suc (length xs) =? max_sub_queue_length) ≡ false
      → xs ++ n ∷ [] ≡ y ∷ rest
      → (past' : List (Node M)) × (run (overtaking n) (wire past (x ∷ xs) (some x) sent)
          ≡ some (wire past' rest (first rest) ((sent ++ x ∷ []) ++ x ∷ [])))
  unfolding run
  overtaken_from past x y n xs rest sent below e =
      let p1 = removed x (xs ++ n ∷ []) past in
      (
        removed y rest p1,
        ap
              (run_kept (Action.drop ∷ take ∷ Action.drop ∷ []) (sent ++ x ∷ [])
                (queue_of past (x ∷ xs) none))
              (enqueue-queue n past (x ∷ xs) none
                ∙ ap (λ b. if b then full else done (queue_of past (x ∷ xs ++ n ∷ []) (some x)))
                    below)
            ∙ ap
                (run_kept (take ∷ Action.drop ∷ []) (sent ++ x ∷ [])
                  (queue_of past (x ∷ xs ++ n ∷ []) (some x)))
                (remove_head-queue past x (xs ++ n ∷ []) (some x))
            ∙ ap (λ l. run (Action.drop ∷ []) (wire p1 l none ((sent ++ x ∷ []) ++ x ∷ []))) e
            ∙ ap (run_kept [] ((sent ++ x ∷ []) ++ x ∷ []) (queue_of p1 (y ∷ rest) none))
                (remove_head-queue p1 y rest none),
      )

  snoc_cons : (xs : List M) (n : M) → (y : M) × (xs ++ n ∷ [] ≡ y ∷ drop 1 (xs ++ n ∷ []))
  snoc_cons [] n = (n, refl)
  snoc_cons (x ∷ xs) n = (x, refl)

  -- After any calls that do not overlap, with a message `x` at the head of a queue that is not full: a
  -- message that is enqueued between the take of `x` and its drop makes the goroutine send `x` twice,
  -- and drop the message behind it without sending it, which is the new one if `x` was alone.
  pub run-overtaken :
      (steps : List (Option M)) (x n : M) (xs : List M)
      → (fifo steps [] []).1 ≡ x ∷ xs
      → suc (length xs) < max_sub_queue_length
      → Shows
          (((fifo steps [] []).0 ++ x ∷ []) ++ x ∷ [], drop 1 (xs ++ n ∷ []))
          (run (calls steps ++ overtaking n) start)
  run-overtaken steps x n xs waiting room =
      subst (Shows _) (sym (run_append (calls steps) (overtaking n) start))
        (from (run (calls steps) start) (run-calls-Shows steps))
    where
      below : (suc (length xs) =? max_sub_queue_length) ≡ false
      below = ground arith

      from :
          (o : Option (Wire M))
          → Shows (fifo steps [] []) o
          → Shows
              (((fifo steps [] []).0 ++ x ∷ []) ++ x ∷ [], drop 1 (xs ++ n ∷ []))
              (then_run (overtaking n) o)
      from none shows = shows
      from (some w) (sent, (past, queue)) =
          let (y, e) = snoc_cons xs n in
          let (past', runs) =
            overtaken_from past x y n xs (drop 1 (xs ++ n ∷ [])) (fifo steps [] []).0 below e in
          let is_wire : w ≡ wire past (x ∷ xs) (some x) (fifo steps [] []).0 = λ k. record {
            queue = (queue ∙ ap (λ l. queue_of past l (first l)) waiting) k;
            sent = sent k;
          } in
          subst (Shows _) (sym (ap (run (overtaking n)) is_wire ∙ runs)) (refl, (past', refl))
