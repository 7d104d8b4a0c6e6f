-- ===== src/PubSub.antt =====
-- The in-process broker: gateway/internal/pubsub/pubsub.go. Topics and subscriber ids are numbers
-- that stand for their texts; a subscriber is a pointer into `heap`, since whoever subscribed keeps
-- it when it is replaced in the map.
mod Isolation
mod Examples
use one_click_agent.Prelude.{
  ℕ, Bool, true, false, Option, none, some, List, [], ◌∷◌, ◌++◌, Dict, lookup, insert, erase,
  length, ltb, ◌==◌, if◌then◌else◌, map,
}
use one_click_agent.Model.{WsEvent}

pub record Subscriber : Type 0 where
  pub user_id : ℕ
  pub queue : List WsEvent
  pub closed : Bool

pub record Broker : Type 0 where
  pub subs : Dict (Dict ℕ)
  pub heap : Dict Subscriber

-- The capacity of a subscriber's channel.
abbrev pub capacity : ℕ
capacity = 64

abbrev pub subs_of : Option (Dict ℕ) → Dict ℕ
subs_of none = []
subs_of (some d) = d

abbrev pub new_subscriber : ℕ → Subscriber
new_subscriber user = record { user_id = user; queue = []; closed = false }

-- `Subscribe`, with the pointer to the new subscriber; one that is replaced is not closed.
unfoldable pub subscribe : ℕ → ℕ → ℕ → ℕ → Broker → Broker
subscribe topic id user p b = record {
  subs = insert topic (insert id p (subs_of (lookup topic b.subs))) b.subs;
  heap = insert p (new_subscriber user) b.heap;
}

abbrev pub closed_sub : Option Subscriber → ℕ → Dict Subscriber → Dict Subscriber
closed_sub none p heap = heap
closed_sub (some s) p heap = insert p (record s { closed = true }) heap

abbrev pub close_channel : Option ℕ → Dict Subscriber → Dict Subscriber
close_channel none heap = heap
close_channel (some p) heap = closed_sub (lookup p heap) p heap

-- The topic's subscribers, or no topic if none are left.
abbrev pub put_subs : ℕ → Dict ℕ → Dict (Dict ℕ) → Dict (Dict ℕ)
put_subs topic [] subs = erase topic subs
put_subs topic (x ∷ d) subs = insert topic (x ∷ d) subs

unfoldable pub unsubscribe : ℕ → ℕ → Broker → Broker
unsubscribe topic id b = elim (lookup topic b.subs) [
  | none ↦ b
  | some d ↦ record {
    subs = put_subs topic (erase id d) b.subs;
    heap = close_channel (lookup id d) b.heap;
  }
]

-- The loop over the topics; every topic of the map is visited once.
unfoldable pub unsubscribe_each : List ℕ → ℕ → Broker → Broker
unsubscribe_each [] id b = b
unsubscribe_each (t ∷ ts) id b = unsubscribe_each ts id (unsubscribe t id b)

unfoldable pub unsubscribe_all : ℕ → Broker → Broker
unsubscribe_all id b = unsubscribe_each (map (λ e. e.0) b.subs) id b

-- `select { case sub.Ch <- event: default: }`.
abbrev pub offer : WsEvent → Subscriber → Subscriber
offer event s =
    if ltb (length s.queue) capacity then record s { queue = s.queue ++ event ∷ [] } else s

abbrev pub deliver_to :
    (Subscriber → Bool) → WsEvent → ℕ → Option Subscriber → Dict Subscriber → Dict Subscriber
deliver_to accepts event p none heap = heap
deliver_to accepts event p (some s) heap = if accepts s then insert p (offer event s) heap else heap

unfoldable pub deliver : (Subscriber → Bool) → WsEvent → Dict ℕ → Dict Subscriber → Dict Subscriber
deliver accepts event [] heap = heap
deliver accepts event ((id, p) ∷ d) heap =
    deliver accepts event d (deliver_to accepts event p (lookup p heap) heap)

unfoldable pub publish : ℕ → WsEvent → Broker → Broker
publish topic event b = record b {
  heap = deliver (λ s. true) event (subs_of (lookup topic b.subs)) b.heap;
}

unfoldable pub publish_scoped : ℕ → ℕ → WsEvent → Broker → Broker
publish_scoped topic user event b = record b {
  heap = deliver (λ s. s.user_id == user) event (subs_of (lookup topic b.subs)) b.heap;
}
