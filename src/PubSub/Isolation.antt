-- ===== src/PubSub/Isolation.antt =====
-- Who receives an event, and who is subscribed after a subscription and after it is given up.
use one_click_agent.Prelude.{
  ℕ, ◌≡◌, refl, Bool, true, false, ◌&&◌, Option, none, some, [], ◌∷◌, arith, Dict, lookup, insert,
  erase, ◌==◌, if◌then◌else◌, lookup-insert, lookup-erase, Option-cases, Bool-cases, inl, inr,
  subst, sym, some-injective, ◌∙◌,
}
use one_click_agent.Model.{WsEvent}
use one_click_agent.PubSub.{
  Broker, Subscriber, subs_of, subscribe, unsubscribe, put_subs, deliver, deliver_to, offer,
  publish_scoped,
}

-- The subscriber of that id on a topic.
abbrev pub subscribed : ℕ → ℕ → Broker → Option ℕ
subscribed topic id b = lookup id (subs_of (lookup topic b.subs))

-- A subscription puts the new subscriber under its id on its topic and changes no other.
pub subscribe-subscribed :
    (topic id user p t i : ℕ) (b : Broker)
    → subscribed t i (subscribe topic id user p b)
      ≡ (if (topic == t) && (id == i) then some p else subscribed t i b)
unfolding subscribe
subscribe-subscribed topic id user p t i b =
    let old = subs_of (lookup topic b.subs) in
    let outer = lookup-insert topic t (insert id p old) b.subs in
    let inner = lookup-insert id i p old in
    elim (Bool-cases (topic == t)) [
      | inl e ↦
          let same : topic ≡ t = ground arith in
          let o : lookup t (insert topic (insert id p old) b.subs) ≡ some (insert id p old) =
            rw e at outer in
          rw (o, e) (inner ∙ rw same refl)
      | inr e ↦
          let o : lookup t (insert topic (insert id p old) b.subs) ≡ lookup t b.subs =
            rw e at outer in
          rw (o, e) refl
    ]

lookup-put_subs :
    (topic t : ℕ) (d : Dict ℕ) (subs : Dict (Dict ℕ))
    → subs_of (lookup t (put_subs topic d subs))
      ≡ (if topic == t then d else subs_of (lookup t subs))
lookup-put_subs topic t [] subs = ground (arith, lookup-erase topic t subs)
lookup-put_subs topic t (x ∷ d) subs = ground (arith, lookup-insert topic t (x ∷ d) subs)

-- Giving up a subscription takes the subscriber of that id off that topic, and no other.
unsubscribe-subscribed :
    (topic id t i : ℕ) (b : Broker)
    → subscribed t i (unsubscribe topic id b)
      ≡ (if (topic == t) && (id == i) then none else subscribed t i b)
unfolding unsubscribe lookup
unsubscribe-subscribed topic id t i b = elim (Option-cases (lookup topic b.subs)) [
  | inl none_there ↦ elim (Bool-cases (topic == t)) [
    | inl e ↦
        let same : topic ≡ t = ground arith in
        let none_here = subst (λ u. lookup u b.subs ≡ none) same none_there in
        rw (none_there, unsubscribe, e, none_here) (ground arith)
    | inr e ↦ rw (none_there, unsubscribe, e) refl
  ]
  | inr (d, there) ↦
      let outer = lookup-put_subs topic t (erase id d) b.subs in
      let inner = lookup-erase id i d in
      elim (Bool-cases (topic == t)) [
        | inl e ↦
            let same : topic ≡ t = ground arith in
            let here = subst (λ u. lookup u b.subs ≡ some d) same there in
            let o : subs_of (lookup t (put_subs topic (erase id d) b.subs)) ≡ erase id d =
              rw e at outer in
            rw (there, unsubscribe, o, e, here) inner
        | inr e ↦
            let o : subs_of (lookup t (put_subs topic (erase id d) b.subs))
                ≡ subs_of (lookup t b.subs) =
              rw e at outer in
            rw (there, unsubscribe, o, e) refl
      ]
]

true_not_false : (x : Bool) → x ≡ true → ¬ (x ≡ false)
true_not_false x e f = ground arith

deliver_to-other :
    (accepts : Subscriber → Bool) (event : WsEvent) (p q : ℕ) (o : Option Subscriber)
    (s : Subscriber)
    → (heap : Dict Subscriber) → lookup p heap ≡ o
    → lookup q heap ≡ some s
    → accepts s ≡ false
    → lookup q (deliver_to accepts event p o heap) ≡ some s
deliver_to-other accepts event p q none s heap at_p at_q no_ = at_q
deliver_to-other accepts event p q (some x) s heap at_p at_q no_ = elim (Bool-cases (accepts x)) [
  | inr e ↦ rw e at_q
  | inl e ↦ elim (Bool-cases (p == q)) [
    | inr apart ↦
        let law = lookup-insert p q (offer event x) heap in
        let same : lookup q (insert p (offer event x) heap) ≡ lookup q heap = rw apart at law in
        rw e (same ∙ at_q)
    | inl at_one ↦
        let one : p ≡ q = ground arith in
        let at_p' : lookup q heap ≡ some x = subst (λ r. lookup r heap ≡ some x) one at_p in
        let refused = subst (λ y. accepts y ≡ false) (some-injective s x (sym at_q ∙ at_p')) no_ in
        absurd (true_not_false (accepts x) e refused)
  ]
]

deliver-other :
    (accepts : Subscriber → Bool) (event : WsEvent) (q : ℕ) (d : Dict ℕ) (s : Subscriber)
    → (heap : Dict Subscriber) → lookup q heap ≡ some s
    → accepts s ≡ false
    → lookup q (deliver accepts event d heap) ≡ some s
unfolding deliver
deliver-other accepts event q [] s heap at_q no_ = at_q
deliver-other accepts event q ((id, p) ∷ d) s heap at_q no_ =
    deliver-other accepts event q d s _
      (deliver_to-other accepts event p q (lookup p heap) s heap refl at_q no_) no_

-- An event that is published for a user leaves every subscriber of another user as it was.
pub publish_scoped-isolated :
    (topic user : ℕ) (event : WsEvent) (q : ℕ) (s : Subscriber) (b : Broker)
    → lookup q b.heap ≡ some s
    → (s.user_id == user) ≡ false
    → lookup q (publish_scoped topic user event b).heap ≡ some s
unfolding publish_scoped
publish_scoped-isolated topic user event q s b at_q other =
    deliver-other (λ x. x.user_id == user) event q _ s b.heap at_q other
