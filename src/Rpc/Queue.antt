-- ===== src/Rpc/Queue.antt =====
-- The message queue of a subscription (api/rpc/queue.go): a chain of nodes on the heap, and a
-- channel with room for one message. The heap is a list of nodes, an address an index of it.
pub mod Chain
pub mod Delivery
pub mod Overtaken
mod Tests
use topia.Base.{
  ℕ, zero, suc, ◌+◌, ◌-◌, Bool, true, false, Option, none, some, List, [], ◌∷◌, ◌++◌, ◌=?◌,
  if◌then◌else◌, length, get_elem?, set,
}
use mathlib.Core.Option

module _ (M : Type 0) where
  pub record Node : Type 0 where
    pub data_of : M
    pub next : Option ℕ

  -- `out_buf` is what the channel holds.
  pub record Queue : Type 0 where
    pub heap : List Node
    pub head : Option ℕ
    pub tail : Option ℕ
    pub size : ℕ
    pub out_buf : Option M
    pub closed : Bool

  -- `panicked` is a nil pointer, or a send on a closed channel.
  pub data Outcome : Type 0 where
    done : Queue → Outcome
    full : Outcome
    panicked : Outcome

abbrev pub max_sub_queue_length : ℕ
max_sub_queue_length = 10

module _ {M : Type 0} where
  abbrev pub new_queue : Queue M
  new_queue = record {
    heap = [];
    head = none;
    tail = none;
    size = 0;
    out_buf = none;
    closed = false;
  }

  -- select { case q.outBuf <- m: default: }
  abbrev pub offer : M → Queue M → Outcome M
  offer m q =
      if q.closed
      then panicked
      else elim q.out_buf [ some held ↦ done q | none ↦ done (record q { out_buf = some m }) ]

  -- The send of q.head.data.
  abbrev pub offer_found : Queue M → Option (Node M) → Outcome M
  offer_found q none = panicked
  offer_found q (some n) = offer n.data_of q

  abbrev pub offer_at : Queue M → Option ℕ → Outcome M
  offer_at q none = panicked
  offer_at q (some h) = offer_found q (get_elem? q.heap h)

  abbrev pub offer_head : Queue M → Outcome M
  offer_head q = offer_at q q.head

  -- q.tail.next = newNode
  abbrev pub linked_to : ℕ → ℕ → List (Node M) → Option (Node M) → List (Node M)
  linked_to t address heap none = heap
  linked_to t address heap (some n) =
      set heap t (record { data_of = n.data_of; next = some address })

  abbrev pub link : ℕ → ℕ → List (Node M) → List (Node M)
  link t address heap = linked_to t address heap (get_elem? heap t)

  unfoldable pub append_node : M → Queue M → Queue M
  append_node m q =
      let address = length q.heap in
      let heap = q.heap ++ (record { data_of = m; next = none } ∷ []) in
      elim q.tail [
        | none ↦ record q {
          heap = heap;
          head = some address;
          tail = some address;
          size = suc q.size;
        }
        | some t ↦ record q { heap = link t address heap; tail = some address; size = suc q.size }
      ]

  unfoldable pub enqueue : M → Queue M → Outcome M
  enqueue m q = if q.size =? max_sub_queue_length then full else offer_head (append_node m q)

  abbrev pub shrink : Outcome M → Outcome M
  shrink (done q) = done (record q { size = q.size - 1 })
  shrink full = full
  shrink panicked = panicked

  abbrev pub moved_head : Queue M → Option ℕ → Outcome M
  moved_head q none = shrink (done (record q { head = none; tail = none }))
  moved_head q (some h) = shrink (offer_head (record q { head = some h }))

  abbrev pub moved_past : Queue M → Option (Node M) → Outcome M
  moved_past q none = panicked
  moved_past q (some n) = moved_head q n.next

  abbrev pub moved_from : Queue M → Option ℕ → Outcome M
  moved_from q none = done q
  moved_from q (some h) = moved_past q (get_elem? q.heap h)

  unfoldable pub remove_head : Queue M → Outcome M
  remove_head q = moved_from q q.head

  -- Closing a channel that is closed panics.
  unfoldable pub clear : Queue M → Outcome M
  clear q =
      if q.closed
      then panicked
      else done (record q { head = none; tail = none; size = 0; closed = true })

  abbrev pub data_at : Queue M → Option ℕ → Option M
  data_at q none = none
  data_at q (some h) = Option.map (λ (n : Node M). n.data_of) (get_elem? q.heap h)

  -- The first message; an error on the empty queue.
  unfoldable pub peek : Queue M → Option M
  peek q = data_at q q.head
