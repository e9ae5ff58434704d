-- ===== src/Rpc/Subscription/Again.antt =====
-- A client that gives a subscription back (api/rpc/subscription.go): what the same call does again,
-- and which numbers a later Subscribe can give.
use topia.Base.{
  ℕ, ◌≡◌, ◌≢◌, refl, sym, ap, subst, ◌∙◌, true, false, ◌||◌, not, inl, inr, none, arith, leb,
  String, Option-cases,
}
use topia.Base.Eq.{==_iff, string_eq}
use topia.Base.Map.{Map, lookup, delete, is_some, lookup-delete}
use topia.Rpc.Queue.{Queue}
use topia.Rpc.Subscription.{
  Subscription, subscription_eq, client_max_subs_to_one_event, has_subscriber, free_sub_id,
  zero_subscription, or_zero, Center, answers, panics, subscribers_of, subscribe, find_subscription,
  unsubscribe,
}
use topia.Rpc.Subscription.Consistent.{
  IsConsistent, Matches, Dropped, unsubscribe-Dropped, find_subscription-Matches, free_sub_id-fresh,
}

module _ {M : Type 0} where
  still_present :
      (sc : Center M) (s t : Subscription)
      → IsConsistent sc
      → lookup t (delete s sc.subscriptions) ≢ none
      → (lookup t sc.subscriptions ≢ none) × (s ≢ t)
  still_present sc s t ok here =
      let law = lookup-delete s t sc.subscriptions ok.distinct in
      (λ gone. here (law ∙ ground arith), λ same. here (law ∙ ground (arith, ==_iff s t)))

  -- The key that UnSubscribe drops is the only one that it can find.
  found_key :
      (sc sc' : Center M) (host event : String) (i : ℕ)
      → IsConsistent sc
      → (d : Dropped sc sc' host event i) → Matches host event i d.key
  found_key sc sc' host event i ok d =
      elim (Option-cases (find_subscription host event i sc.subscriptions)) [
        | inl absent ↦
            let zero_key : zero_subscription ≡ d.key = sym (ap or_zero absent) ∙ d.found in
            absurd (
              ground
                (arith, ok.numbered d.key d.present, ap (λ (s : Subscription). s.sub_id) zero_key))
        | inr (s, hit) ↦
            let key : s ≡ d.key = sym (ap or_zero hit) ∙ d.found in
            subst (Matches host event i) key
              (find_subscription-Matches host event i sc.subscriptions s hit).1
      ]

  nothing_left :
      (sc sc' : Center M) (host event : String) (i : ℕ)
      → IsConsistent sc
      → (d : Dropped sc sc' host event i)
      → let rest = delete d.key sc.subscriptions in
        lookup (or_zero (find_subscription host event i rest)) rest ≡ none
  nothing_left sc sc' host event i ok d =
      let rest = delete d.key sc.subscriptions in
      elim (Option-cases (find_subscription host event i rest)) [
        | inl absent ↦ elim (Option-cases (lookup zero_subscription rest)) [
          | inl gone ↦ rw absent gone
          | inr (q, here) ↦
              let there = still_present sc d.key zero_subscription ok (ground arith) in
              absurd (ground (arith, ok.numbered zero_subscription there.0))
        ]
        | inr (t, hit) ↦
            let (here, matches) = find_subscription-Matches host event i rest t hit in
            let (there, other) = still_present sc d.key t ok here in
            absurd (
              other (
                ok.unique host event i d.key t (found_key sc sc' host event i ok d) matches
                  d.present there))
      ]

  again_panics :
      (sc : Center M) (rest : Map Subscription (Queue M)) (host event : String) (i : ℕ)
      → is_some (lookup event sc.event_subscribers) ≡ true
      → (leb i 0 || not (leb i client_max_subs_to_one_event)) ≡ false
      → has_subscriber (record { host = host; sub_id = i }) (subscribers_of sc event) ≡ true
      → lookup (or_zero (find_subscription host event i rest)) rest ≡ none
      → unsubscribe
          (record { event_subscribers = sc.event_subscribers; subscriptions = rest })
          host
          event
          i
        ≡ panics
  unfolding unsubscribe
  again_panics sc rest host event i legal numbered member gone =
      rw (legal, numbered, member, gone) refl

  -- The same UnSubscribe a second time panics, where it should report that there is no such
  -- subscription.
  unsubscribe_twice :
      (sc sc' : Center M) (host event : String) (i : ℕ)
      → IsConsistent sc
      → unsubscribe sc host event i ≡ answers tt sc'
      → unsubscribe sc' host event i ≡ panics
  unsubscribe_twice sc sc' host event i ok e =
      let d = unsubscribe-Dropped sc sc' host event i tt e in
      let shape : sc' ≡ record {
        event_subscribers = sc.event_subscribers;
        subscriptions = delete d.key sc.subscriptions;
      } =
        λ k. record { event_subscribers = d.same k; subscriptions = d.shorter k } in
      subst (λ c. unsubscribe c host event i ≡ panics) (sym shape)
        (again_panics sc _ host event i d.legal d.numbered d.member
          (nothing_left sc sc' host event i ok d))

  -- A number that was given back is not given again.
  pub subscribe_after_unsubscribe :
      (sc sc' sc'' : Center M) (host event filter : String) (i j : ℕ)
      → unsubscribe sc host event i ≡ answers tt sc'
      → subscribe sc' host event filter ≡ answers j sc''
      → j ≢ i
  unfolding subscribe
  subscribe_after_unsubscribe sc sc' sc'' host event filter i j e given same =
      let d = unsubscribe-Dropped sc sc' host event i tt e in
      let kept : subscribers_of sc' event ≡ subscribers_of sc event =
        ap
          (λ es.
            subscribers_of (record { event_subscribers = es; subscriptions = sc.subscriptions })
              event)
          d.same in
      elim (Option-cases
        (free_sub_id client_max_subs_to_one_event 1 host (subscribers_of sc' event))) [
          | inl full ↦ ground arith
          | inr (k, free) ↦
              let fresh =
                free_sub_id-fresh client_max_subs_to_one_event 1 k host (subscribers_of sc' event)
                  free in
              ground (arith, fresh, kept, d.member)
        ]
