-- ===== src/Rpc/Subscription/Tests.antt =====
-- Runs of the subscription center (api/rpc/subscription.go).
use topia.Base.{ℕ, [], ◌∷◌, none, ◌≡◌, ◌≢◌, refl, arith}
use topia.Base.Eq.{==_iff}
use topia.Base.Map.{lookup, insert, delete}
use topia.Rpc.Queue.{new_queue, clear}
use topia.Rpc.Subscription.{
  Subscription, subscription_eq, Center, answers, has_subscriber, free_sub_id, find_subscription,
  subscribe, unsubscribe,
}
use topia.Rpc.Subscription.Consistent.{IsConsistent}

abbrev key : Subscription
key = record { remote_host = "h"; event_name = "e"; sub_id = 1; filter_string = "" }

abbrev subscribed_once : Center ℕ
subscribed_once = record {
  event_subscribers = ("e", record { host = "h"; sub_id = 1 } ∷ []) ∷ [];
  subscriptions = (key, new_queue) ∷ [];
}

abbrev given_back : Center ℕ
given_back = record {
  event_subscribers = ("e", record { host = "h"; sub_id = 1 } ∷ []) ∷ [];
  subscriptions = [];
}

abbrev subscribed_again : Center ℕ
subscribed_again = record {
  event_subscribers =
      ("e", record { host = "h"; sub_id = 2 } ∷ record { host = "h"; sub_id = 1 } ∷ []) ∷ [];
  subscriptions =
      (record { remote_host = "h"; event_name = "e"; sub_id = 2; filter_string = "" }, new_queue)
      ∷ [];
}

only_key : (s : Subscription) → lookup s subscribed_once.subscriptions ≢ none → key ≡ s
unfolding lookup
only_key s h = ground (arith, ==_iff key s)

subscribed_once-IsConsistent : IsConsistent subscribed_once
unfolding lookup
subscribed_once-IsConsistent = record {
  distinct = (refl, tt);
  unique = λ host event i s t p q here there. ground (arith, only_key s here, only_key t there);
  numbered = λ s here. ground (arith, only_key s here);
}

unsubscribes : unsubscribe subscribed_once "h" "e" 1 ≡ answers tt given_back
unfolding unsubscribe lookup find_subscription has_subscriber clear delete
unsubscribes = refl

subscribes : subscribe given_back "h" "e" "" ≡ answers 2 subscribed_again
unfolding subscribe lookup free_sub_id has_subscriber insert
subscribes = refl
