-- ===== src/PubSub/Examples.antt =====
-- Runs of the broker: gateway/internal/pubsub/pubsub.go.
use one_click_agent.Prelude.{◌≡◌, refl, some, [], ◌∷◌, lookup}
use one_click_agent.Model.{WsEventType}
use one_click_agent.PubSub.{Broker, new_subscriber, publish_scoped}
use one_click_agent.PubSub.Isolation.{publish_scoped-isolated}

-- Users 7 and 8 on the topic 1.
abbrev broker : Broker
broker = record {
  subs = (1, (20, 100) ∷ (21, 101) ∷ []) ∷ [];
  heap = (100, new_subscriber 7) ∷ (101, new_subscriber 8) ∷ [];
}

publish_scoped-isolated_example :
    lookup 101
      (publish_scoped 1 7 (record { type = WsEventType.job_status; topic = 1 }) broker).heap
    ≡ some (new_subscriber 8)
unfolding lookup
publish_scoped-isolated_example =
    publish_scoped-isolated 1 7 (record { type = WsEventType.job_status; topic = 1 }) 101
      (new_subscriber 8) broker refl refl
