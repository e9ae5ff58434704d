-- ===== src/Rpc/Queue/Chain.antt =====
-- The queue of api/rpc/queue.go as a list of messages: the chain that its pointers lead along.
use topia.Base.{
  ℕ, suc, ◌+◌, ◌-◌, ◌≡◌, refl, ap, ◌∙◌, false, Option, none, some, List, [], ◌∷◌, ◌++◌, arith, ◌=?◌,
  if◌then◌else◌, length, get_elem?, length-append,
}
use mathlib.Core.List.{append_assoc, append-nil}
use topia.Base.Map.{or_else}
use topia.Rpc.Queue.{
  Node, Queue, done, full, max_sub_queue_length, offer_head, offer_found, shrink, moved_past,
  linked_to, link, append_node, enqueue, remove_head,
}

get_elem?-past :
    {A : Type 0} (past : List A) (a : A) (rest : List A)
    → get_elem? (past ++ (a ∷ rest)) (length past) ≡ some a
get_elem?-past [] a rest = refl
get_elem?-past (x ∷ past) a rest = get_elem?-past past a rest

module _ {M : Type 0} where
  -- The nodes of a chain of messages that starts at an address, one behind the other.
  abbrev pub linked : ℕ → List M → List (Node M)
  linked h [] = []
  linked h (x ∷ []) = record { data_of = x; next = none } ∷ []
  linked h (x ∷ y ∷ xs) = record { data_of = x; next = some (suc h) } ∷ linked (suc h) (y ∷ xs)

  abbrev pub first : List M → Option M
  first [] = none
  first (x ∷ xs) = some x

  abbrev pub head_at : ℕ → List M → Option ℕ
  head_at h [] = none
  head_at h (x ∷ xs) = some h

  abbrev pub tail_at : ℕ → List M → Option ℕ
  tail_at h [] = none
  tail_at h (x ∷ xs) = some (h + length xs)

  abbrev pub queue_sized : ℕ → List (Node M) → List M → Option M → Queue M
  queue_sized n past xs out = record {
    heap = past ++ linked (length past) xs;
    head = head_at (length past) xs;
    tail = tail_at (length past) xs;
    size = n;
    out_buf = out;
    closed = false;
  }

  -- The queue that holds the messages `xs`: its heap ends in their nodes, behind the nodes of
  -- messages that were removed.
  abbrev pub queue_of : List (Node M) → List M → Option M → Queue M
  queue_of past xs out = queue_sized (length xs) past xs out

  length-linked : (h : ℕ) (xs : List M) → length (linked h xs) ≡ length xs
  length-linked h [] = refl
  length-linked h (x ∷ []) = refl
  length-linked h (x ∷ y ∷ xs) = ap suc (length-linked (suc h) (y ∷ xs))

  linked_to-cons :
      (k a : ℕ) (n : Node M) (rest : List (Node M)) (found : Option (Node M))
      → linked_to (suc k) a (n ∷ rest) found ≡ n ∷ linked_to k a rest found
  linked_to-cons k a n rest none = refl
  linked_to-cons k a n rest (some last) = refl

  link-cons :
      (k a : ℕ) (n : Node M) (rest : List (Node M)) → link (suc k) a (n ∷ rest) ≡ n ∷ link k a rest
  link-cons k a n rest = linked_to-cons k a n rest (get_elem? rest k)

  link-past :
      (past rest : List (Node M)) (k a : ℕ)
      → link (length past + k) a (past ++ rest) ≡ past ++ link k a rest
  link-past [] rest k a = let e : 0 + k ≡ k = omega arith in rw e refl
  link-past (n ∷ past) rest k a =
      let e : suc (length past) + k ≡ suc (length past + k) = omega arith in
      rw e (link-cons (length past + k) a n (past ++ rest) ∙ ap (◌∷◌ n) (link-past past rest k a))

  -- Linking the last node to a new one makes the chain one longer.
  link-last :
      (h a : ℕ) (x m : M) (xs : List M)
      → a ≡ h + suc (length xs)
      → link (length xs) a (linked h (x ∷ xs) ++ (record { data_of = m; next = none } ∷ []))
        ≡ linked h (x ∷ xs ++ (m ∷ []))
  link-last h a x m [] e = let e' : a ≡ suc h = omega arith in rw e' refl
  link-last h a x m (y ∷ xs) e =
      link-cons (length xs) a _ _
      ∙ ap (◌∷◌ (record { data_of = x; next = some (suc h) }))
          (link-last (suc h) a y m xs (omega arith))

  append_node-queue :
      (m : M) (past : List (Node M)) (xs : List M) (out : Option M)
      → append_node m (queue_of past xs out) ≡ queue_of past (xs ++ (m ∷ [])) out
  unfolding append_node
  append_node-queue m past [] out =
      let e : length past + 0 ≡ length past = omega arith in rw (append-nil past, e) refl
  append_node-queue m past (x ∷ xs) out =
      rw
        (
          address,
          append_assoc past (linked (length past) (x ∷ xs))
              (record { data_of = m; next = none } ∷ []),
        )
        (rw
          (
            link-past past _ (length xs) (length past + suc (length xs)),
            link-last (length past) (length past + suc (length xs)) x m xs refl,
            longer,
          )
          refl)
    where
      address : length (past ++ linked (length past) (x ∷ xs)) ≡ length past + suc (length xs)
      address = rw (length-append past, length-linked) refl

      longer : suc (length xs) ≡ length (xs ++ (m ∷ []))
      longer = rw (length-append xs) (omega arith)

  -- The node of the first message.
  found_first :
      (past : List (Node M)) (x : M) (xs : List M)
      → get_elem? (past ++ linked (length past) (x ∷ xs)) (length past)
        ≡ some (record { data_of = x; next = head_at (suc (length past)) xs })
  found_first past x [] = get_elem?-past past _ []
  found_first past x (y ∷ xs) = get_elem?-past past _ _

  offer_head-queue :
      (n : ℕ) (past : List (Node M)) (x : M) (xs : List M) (out : Option M)
      → offer_head (queue_sized n past (x ∷ xs) out)
        ≡ done (queue_sized n past (x ∷ xs) (or_else out (some x)))
  offer_head-queue n past x xs none =
      ap (offer_found (queue_sized n past (x ∷ xs) none)) (found_first past x xs)
  offer_head-queue n past x xs (some m) =
      ap (offer_found (queue_sized n past (x ∷ xs) (some m))) (found_first past x xs)

  offered_last :
      (m : M) (past : List (Node M)) (xs : List M) (out : Option M)
      → offer_head (queue_of past (xs ++ (m ∷ [])) out)
        ≡ done (queue_of past (xs ++ (m ∷ [])) (or_else out (first (xs ++ (m ∷ [])))))
  offered_last m past [] out = offer_head-queue _ past m [] out
  offered_last m past (x ∷ xs) out = offer_head-queue _ past x (xs ++ (m ∷ [])) out

  -- Enqueueing puts the message behind those of the queue, and the first message of the queue into
  -- the channel if that is empty; a full queue refuses it.
  pub enqueue-queue :
      (m : M) (past : List (Node M)) (xs : List M) (out : Option M)
      → enqueue m (queue_of past xs out) ≡ (
          if length xs =? max_sub_queue_length
          then full
          else done (queue_of past (xs ++ (m ∷ [])) (or_else out (first (xs ++ (m ∷ []))))))
  unfolding enqueue
  enqueue-queue m past xs out =
      ap (λ q. if length xs =? max_sub_queue_length then full else offer_head q)
        (append_node-queue m past xs out)
      ∙ ap (λ r. if length xs =? max_sub_queue_length then full else r) (offered_last m past xs out)

  abbrev pub removed : M → List M → List (Node M) → List (Node M)
  removed x xs past = past ++ (record { data_of = x; next = head_at (suc (length past)) xs } ∷ [])

  length-removed :
      (x : M) (xs : List M) (past : List (Node M)) → length (removed x xs past) ≡ suc (length past)
  length-removed x xs past = rw (length-append past) (omega arith)

  -- The queue behind the first of several messages.
  behind_first :
      (past : List (Node M)) (x y : M) (xs : List M) (out : Option M)
      → record (queue_of past (x ∷ y ∷ xs) out) { head = some (suc (length past)) }
        ≡ queue_sized (suc (suc (length xs))) (removed x (y ∷ xs) past) (y ∷ xs) out
  behind_first past x y xs out =
      let e : length past + suc (length xs) ≡ suc (length past) + length xs = omega arith in
      rw (length-removed x (y ∷ xs) past, append_assoc past, e) refl

  -- Removing the head leaves the other messages, and puts the next one into the channel if that is
  -- empty.
  pub remove_head-queue :
      (past : List (Node M)) (x : M) (xs : List M) (out : Option M)
      → remove_head (queue_of past (x ∷ xs) out)
        ≡ done (queue_of (removed x xs past) xs (or_else out (first xs)))
  unfolding remove_head
  remove_head-queue past x [] none =
      ap (moved_past (queue_of past (x ∷ []) none)) (found_first past x [])
      ∙ rw (append-nil (removed x [] past)) refl
  remove_head-queue past x [] (some m) =
      ap (moved_past (queue_of past (x ∷ []) (some m))) (found_first past x [])
      ∙ rw (append-nil (removed x [] past)) refl
  remove_head-queue past x (y ∷ xs) out =
      let smaller : suc (suc (length xs)) - 1 ≡ suc (length xs) = omega arith in
      ap (moved_past (queue_of past (x ∷ y ∷ xs) out)) (found_first past x (y ∷ xs))
      ∙ ap (λ q. shrink (offer_head q)) (behind_first past x y xs out)
      ∙ ap shrink (offer_head-queue (suc (suc (length xs))) (removed x (y ∷ xs) past) y xs out)
      ∙ ap (λ n. done (queue_sized n (removed x (y ∷ xs) past) (y ∷ xs) (or_else out (some y))))
          smaller
