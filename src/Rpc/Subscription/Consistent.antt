-- ===== src/Rpc/Subscription/Consistent.antt =====
-- What UnSubscribe of api/rpc/subscription.go leaves behind: the subscriber stays in the set of its
-- event.
use topia.Base.{
  ℕ, zero, suc, ◌≤◌, ◌≡◌, ◌≢◌, refl, subst, true, false, ◌&&◌, ◌||◌, not, inl, inr, Option, none,
  some, List, [], ◌∷◌, arith, ◌=?◌, leb, String, Bool-cases,
}
use topia.Base.Eq.{◌==◌, ==_iff, ==_refl, string_eq}
use topia.Base.Map.{Map, Distinct, lookup, delete, is_some}
use topia.Rpc.Queue.{Queue, Outcome, done, full, panicked, clear}
use topia.Rpc.Subscription.{
  Subscriber, Subscription, subscription_eq, client_max_subs_to_one_event, has_subscriber,
  free_sub_id, or_zero, Center, answers, subscribers_of, find_subscription, cleared,
  drop_subscription, unsubscribe,
}

-- A number that is given is one that the client does not have.
pub free_sub_id-fresh :
    (left i j : ℕ) (host : String) (set : List Subscriber)
    → free_sub_id left i host set ≡ some j
    → has_subscriber (record { host = host; sub_id = j }) set ≡ false
unfolding free_sub_id
free_sub_id-fresh zero i j host set e = ground arith
free_sub_id-fresh (suc left) i j host set e =
    elim (Bool-cases (has_subscriber (record { host = host; sub_id = i }) set)) [
      | inl taken ↦ free_sub_id-fresh left (suc i) j host set (ground arith)
      | inr free ↦
          subst (λ k. has_subscriber (record { host = host; sub_id = k }) set ≡ false)
            (ground arith) free
    ]

-- Whether the subscription is the client's with the number.
abbrev pub Matches : String → String → ℕ → Subscription → Type 0
Matches host event i s = (s.remote_host ≡ host) × (s.event_name ≡ event) × (s.sub_id ≡ i)

module _ {M : Type 0} where
  -- One subscription at most for a client, event and number, all numbers from 1 on, and a queue
  -- that is open for each.
  pub record IsConsistent (sc : Center M) : Type 0 where
    pub distinct : Distinct sc.subscriptions
    pub unique :
        (host event : String) (i : ℕ) (s t : Subscription)
        → Matches host event i s
        → Matches host event i t
        → lookup s sc.subscriptions ≢ none
        → lookup t sc.subscriptions ≢ none
        → s ≡ t
    pub numbered : (s : Subscription) → lookup s sc.subscriptions ≢ none → 1 ≤ s.sub_id

  pub find_subscription-Matches :
      (host event : String) (i : ℕ) (subs : Map Subscription (Queue M)) (s : Subscription)
      → find_subscription host event i subs ≡ some s
      → (lookup s subs ≢ none) × Matches host event i s
  unfolding find_subscription lookup
  find_subscription-Matches host event i [] s e = ground arith
  find_subscription-Matches host event i ((t, q) ∷ subs) s e =
      elim (Bool-cases ((t.remote_host == host) && (t.event_name == event) && (t.sub_id =? i))) [
        | inl hit ↦
            let same : t ≡ s = ground arith in
            subst (λ r. (lookup r ((t, q) ∷ subs) ≢ none) × Matches host event i r) same
              (
                ground (arith, ==_refl t),
                ground (arith, ==_iff t.remote_host host, ==_iff t.event_name event),
              )
        | inr miss ↦
            let further = find_subscription-Matches host event i subs s (ground arith) in
            (ground (arith, further.0, ==_iff t s), further.1)
      ]

  cleared-answers :
      (sc sc' : Center M) (s : Subscription) (r : Outcome M) (u : Unit)
      → cleared sc s r ≡ answers u sc'
      → (sc'.event_subscribers ≡ sc.event_subscribers)
        × (sc'.subscriptions ≡ delete s sc.subscriptions)
  cleared-answers sc sc' s (done q) u e = ground arith
  cleared-answers sc sc' s full u e = ground arith
  cleared-answers sc sc' s panicked u e = ground arith

  drop_subscription-answers :
      (sc sc' : Center M) (s : Subscription) (found : Option (Queue M)) (u : Unit)
      → drop_subscription sc s found ≡ answers u sc'
      → (sc'.event_subscribers ≡ sc.event_subscribers)
        × (sc'.subscriptions ≡ delete s sc.subscriptions)
        × (found ≢ none)
  drop_subscription-answers sc sc' s none u e = ground arith
  drop_subscription-answers sc sc' s (some q) u e =
      let kept = cleared-answers sc sc' s (clear q) u e in (kept.0, kept.1, λ absent. ground arith)

  -- The tests that an UnSubscribe passed, and what it dropped.
  pub record Dropped (sc sc' : Center M) (host event : String) (i : ℕ) : Type 0 where
    pub key : Subscription
    pub found : or_zero (find_subscription host event i sc.subscriptions) ≡ key
    pub present : lookup key sc.subscriptions ≢ none
    pub legal : is_some (lookup event sc.event_subscribers) ≡ true
    pub numbered : (leb i 0 || not (leb i client_max_subs_to_one_event)) ≡ false
    pub member :
        has_subscriber (record { host = host; sub_id = i }) (subscribers_of sc event) ≡ true
    pub same : sc'.event_subscribers ≡ sc.event_subscribers
    pub shorter : sc'.subscriptions ≡ delete key sc.subscriptions

  pub unsubscribe-Dropped :
      (sc sc' : Center M) (host event : String) (i : ℕ) (u : Unit)
      → unsubscribe sc host event i ≡ answers u sc'
      → Dropped sc sc' host event i
  unfolding unsubscribe
  unsubscribe-Dropped sc sc' host event i u e =
      let key = or_zero (find_subscription host event i sc.subscriptions) in
      elim (Bool-cases (is_some (lookup event sc.event_subscribers))) [
        | inr illegal ↦ ground arith
        | inl legal ↦ elim (Bool-cases (leb i 0 || not (leb i client_max_subs_to_one_event))) [
          | inl bad ↦ ground arith
          | inr numbered ↦
              elim (Bool-cases
                (has_subscriber (record { host = host; sub_id = i }) (subscribers_of sc event))) [
                  | inr missing ↦ ground arith
                  | inl member ↦
                      let kept =
                        drop_subscription-answers sc sc' key (lookup key sc.subscriptions) u
                          (ground arith) in
                      record {
                        key = key;
                        found = refl;
                        present = kept.2;
                        legal = legal;
                        numbered = numbered;
                        member = member;
                        same = kept.0;
                        shorter = kept.1;
                      }
                ]
        ]
      ]
