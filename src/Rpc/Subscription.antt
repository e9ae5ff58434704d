-- ===== src/Rpc/Subscription.antt =====
-- The subscriptions of the RPC server's clients (api/rpc/subscription.go): which client has which
-- subscription numbers of an event, and the queue of each subscription.
pub mod Consistent
pub mod Again
mod Tests
use topia.Base.{
  ℕ, zero, suc, ◌+◌, ◌-◌, Bool, true, false, ◌&&◌, ◌||◌, not, ◌≡◌, ◌↔◌, refl, Option, none, some,
  List, [], ◌∷◌, ◌++◌, leb, ◌=?◌, =?_iff, if◌then◌else◌, String, arith,
}
use topia.Base.Eq.{Comparable, ◌==◌, ==_iff, string_eq, nat_eq}
use topia.Base.Map.{Map, lookup, insert, delete, is_some}
use topia.Rpc.Queue.{Queue, Outcome, done, full, panicked, new_queue, enqueue, clear}

pub record Subscriber : Type 0 where
  pub host : String
  pub sub_id : ℕ

pub record Subscription : Type 0 where
  pub remote_host : String
  pub event_name : String
  pub sub_id : ℕ
  pub filter_string : String

abbrev pub equal_subscriber : Subscriber → Subscriber → Bool
equal_subscriber a b = (a.host == b.host) && (a.sub_id =? b.sub_id)

abbrev pub equal_subscription : Subscription → Subscription → Bool
equal_subscription a b =
    (a.remote_host == b.remote_host)
    && (a.event_name == b.event_name)
    && (a.sub_id =? b.sub_id)
    && (a.filter_string == b.filter_string)

pub equal_subscription_iff : (a b : Subscription) → (equal_subscription a b ≡ true) ↔ (a ≡ b)
equal_subscription_iff a b = ground (
  arith,
  ==_iff a.remote_host b.remote_host,
  ==_iff a.event_name b.event_name,
  ==_iff a.filter_string b.filter_string,
)

instance abbrev pub subscription_eq : Comparable Subscription
subscription_eq = record { equal = equal_subscription; equal_iff = equal_subscription_iff }

abbrev pub client_max_subs_to_one_event : ℕ
client_max_subs_to_one_event = 5

unfoldable pub has_subscriber : Subscriber → List Subscriber → Bool
has_subscriber s [] = false
has_subscriber s (t ∷ set) = equal_subscriber t s || has_subscriber s set

unfoldable pub remove_subscriber : Subscriber → List Subscriber → List Subscriber
remove_subscriber s [] = []
remove_subscriber s (t ∷ set) =
    let rest = remove_subscriber s set in if equal_subscriber t s then rest else t ∷ rest

pub data SubscribeError : Type 0 where
  no_such_event : SubscribeError
  exceed_subs_limit : SubscribeError
  invalid_sub_id : SubscribeError
  no_such_subscription : SubscribeError

-- The loop over the numbers from `i` on, of which `left` are left: the first that the client
-- does not have.
unfoldable pub free_sub_id : ℕ → ℕ → String → List Subscriber → Option ℕ
free_sub_id zero i host set = none
free_sub_id (suc left) i host set =
    let next = free_sub_id left (suc i) host set in
    if has_subscriber (record { host = host; sub_id = i }) set then next else some i

-- Without one the key stays the zero value, whose queue is nil.
abbrev pub zero_subscription : Subscription
zero_subscription = record { remote_host = ""; event_name = ""; sub_id = 0; filter_string = "" }

abbrev pub or_zero : Option Subscription → Subscription
or_zero none = zero_subscription
or_zero (some s) = s

module _ (M : Type 0) where
  -- A set of subscribers for each event, and the queue of each subscription.
  pub record Center : Type 0 where
    pub event_subscribers : Map String (List Subscriber)
    pub subscriptions : Map Subscription (Queue M)

  -- `panics` is a call on the nil queue, or a second close of its channel.
  pub data Answer (A : Type 0) : Type 0 where
    answers : A → Center → Answer A
    fails : SubscribeError → Center → Answer A
    panics : Answer A

module _ {M : Type 0} where
  abbrev pub subscribers_of : Center M → String → List Subscriber
  subscribers_of sc event = elim (lookup event sc.event_subscribers) [ none ↦ [] | some set ↦ set ]

  abbrev pub subscribed : Center M → String → String → String → Option ℕ → Answer M ℕ
  subscribed sc host event filter none = fails exceed_subs_limit sc
  subscribed sc host event filter (some i) = answers i (record {
    event_subscribers =
        insert event (record { host = host; sub_id = i } ∷ subscribers_of sc event)
          sc.event_subscribers;
    subscriptions =
        insert
          (record { remote_host = host; event_name = event; sub_id = i; filter_string = filter })
          new_queue sc.subscriptions;
  })

  unfoldable pub subscribe : Center M → String → String → String → Answer M ℕ
  subscribe sc host event filter =
      if is_some (lookup event sc.event_subscribers)
      then subscribed sc host event filter
          (free_sub_id client_max_subs_to_one_event 1 host (subscribers_of sc event))
      else fails no_such_event sc

  -- for sub := range sc.subscriptions: the first of the host, event and number.
  unfoldable pub find_subscription :
      String → String → ℕ → Map Subscription (Queue M) → Option Subscription
  find_subscription host event i [] = none
  find_subscription host event i ((s, q) ∷ subs) =
      let next = find_subscription host event i subs in
      if (s.remote_host == host) && (s.event_name == event) && (s.sub_id =? i) then some s else next

  abbrev pub cleared : Center M → Subscription → Outcome M → Answer M Unit
  cleared sc s panicked = panics
  cleared sc s _ = answers tt (record {
    event_subscribers = sc.event_subscribers;
    subscriptions = delete s sc.subscriptions;
  })

  -- clear, cancel and delete of a key.
  abbrev pub drop_subscription : Center M → Subscription → Option (Queue M) → Answer M Unit
  drop_subscription sc s none = panics
  drop_subscription sc s (some q) = cleared sc s (clear q)

  unfoldable pub unsubscribe : Center M → String → String → ℕ → Answer M Unit
  unsubscribe sc host event i =
      let sub = or_zero (find_subscription host event i sc.subscriptions) in
      if not (is_some (lookup event sc.event_subscribers))
      then fails no_such_event sc
      else if leb i 0 || not (leb i client_max_subs_to_one_event)
      then fails invalid_sub_id sc
      else if not (has_subscriber (record { host = host; sub_id = i }) (subscribers_of sc event))
      then fails no_such_subscription sc
      else drop_subscription sc sub (lookup sub sc.subscriptions)

  -- The keys of a client's subscriptions.
  unfoldable pub keys_of_host : String → Map Subscription (Queue M) → List Subscription
  keys_of_host host [] = []
  keys_of_host host ((s, q) ∷ subs) =
      let rest = keys_of_host host subs in if s.remote_host == host then s ∷ rest else rest

  abbrev pub without_subscriber : Center M → Subscription → Center M
  without_subscriber sc s = record {
    event_subscribers =
        insert s.event_name
          (remove_subscriber (record { host = s.remote_host; sub_id = s.sub_id })
            (subscribers_of sc s.event_name))
          sc.event_subscribers;
    subscriptions = sc.subscriptions;
  }

  unfoldable pub drop_all : List Subscription → Center M → Answer M Unit
  drop_all [] sc = answers tt sc
  drop_all (s ∷ keys) sc =
      elim (drop_subscription (without_subscriber sc s) s (lookup s sc.subscriptions)) [
        | answers u sc' ↦ drop_all keys sc'
        | fails e sc' ↦ fails e sc'
        | panics ↦ panics
      ]

  unfoldable pub unsubscribe_all : Center M → String → Answer M Unit
  unsubscribe_all sc host = drop_all (keys_of_host host sc.subscriptions) sc

  abbrev pub kept_queue : Queue M → Outcome M → Option (Queue M)
  kept_queue q (done q') = some q'
  kept_queue q full = some q
  kept_queue q panicked = none

  abbrev pub with_queue :
      Subscription
      → Option (Queue M)
      → Option (Map Subscription (Queue M))
      → Option (Map Subscription (Queue M))
  with_queue s none rest = none
  with_queue s (some q) none = none
  with_queue s (some q) (some subs) = some ((s, q) ∷ subs)

  -- A message goes to the queue of every subscription of its event; a full queue misses it.
  unfoldable pub receive_sub_msg :
      String → M → Map Subscription (Queue M) → Option (Map Subscription (Queue M))
  receive_sub_msg event m [] = some []
  receive_sub_msg event m ((s, q) ∷ subs) =
      let rest = receive_sub_msg event m subs in
      if s.event_name == event
      then with_queue s (kept_queue q (enqueue m q)) rest
      else with_queue s (some q) rest
