-- ===== src/Tunnel/Hub/Takeover.antt =====
-- What a connection takes over from the one it replaces: the loop of `Register` in
-- gateway/internal/tunnel/hub.go over the pending frames.
use mathlib.Core.List.{Memᴰ}
use one_click_agent.Prelude.{
  ℕ, suc, ◌+◌, ◌≤◌, ◌<◌, ◌≡◌, refl, ap, sym, subst, ◌∙◌, some, List, [], ◌∷◌, ◌++◌, length, lookup,
  arith, ltb, Bool-cases, inl, inr, ◌==◌, lt→ltb, All, some-injective,
}
use one_click_agent.Model.{Frame}
use one_click_agent.Tunnel.Acks.{TrackedFrame, AckTracker, pending, track}
use one_click_agent.Tunnel.Conn.{DeviceConn, offer, outbound_cap, migrate}
use one_click_agent.Tunnel.Hub.Delivery.{Tracks, All-Tracks, migrate-Tracks}

length-pending : (t : AckTracker) → length (pending t) ≡ length t
unfolding pending
length-pending [] = refl
length-pending ((k, f) ∷ t) = ap suc (length-pending t)

lookup-pending :
    (k : ℕ) (f : TrackedFrame) (t : AckTracker) → lookup k t ≡ some f → Memᴰ f (pending t)
unfolding lookup pending
lookup-pending k f [] found = absurd (cc)
lookup-pending k f ((j, g) ∷ t) found = elim (Bool-cases (j == k)) [
  | inl e ↦ Memᴰ.head (sym (some-injective g f (sym (rw e) ∙ found)))
  | inr e ↦ Memᴰ.tail (lookup-pending k f t (rw e at found))
]

module _ {A : Type 0} where
  member_left : (x : A) (xs ys : List A) → Memᴰ x xs → Memᴰ x (xs ++ ys)
  member_left x [] ys m = elim m [ ]
  member_left x (y ∷ xs) ys (Memᴰ.head e) = Memᴰ.head e
  member_left x (y ∷ xs) ys (Memᴰ.tail m) = Memᴰ.tail (member_left x xs ys m)

  member_last : (x : A) (xs : List A) → Memᴰ x (xs ++ x ∷ [])
  member_last x [] = Memᴰ.head refl
  member_last x (y ∷ xs) = Memᴰ.tail (member_last x xs)

  length-append : (x : A) (xs : List A) → length (xs ++ x ∷ []) ≡ suc (length xs)
  length-append x [] = refl
  length-append x (y ∷ xs) = ap suc (length-append x xs)

offer-queued :
    (g frame : Frame) (c : DeviceConn) → Memᴰ g c.outbound → Memᴰ g (offer frame c).1.outbound
unfolding offer
offer-queued g frame c m = elim (Bool-cases (ltb (length c.outbound) outbound_cap)) [
  | inl e ↦ rw e (member_left g c.outbound (frame ∷ []) m)
  | inr e ↦ rw e m
]

-- What is queued stays queued.
migrate-queued :
    (now : ℕ) (g : Frame) (fs : List TrackedFrame) (c : DeviceConn)
    → Memᴰ g c.outbound
    → Memᴰ g (migrate now fs c).outbound
unfolding migrate
migrate-queued now g [] c m = m
migrate-queued now g (f ∷ fs) c m =
    let c' = record c { acks = track now f.frame c.acks } in
    migrate-queued now g fs (offer f.frame c').1 (offer-queued g f.frame c' m)

offer-room :
    (frame : Frame) (c : DeviceConn)
    → length c.outbound < outbound_cap
    → (offer frame c).1.outbound ≡ c.outbound ++ frame ∷ []
unfolding offer
offer-room frame c room = rw (lt→ltb (length c.outbound) outbound_cap room) refl

-- Where there is room for all of them, every frame is queued.
migrate-queues :
    (now : ℕ) (f : TrackedFrame) (fs : List TrackedFrame) (c : DeviceConn)
    → length c.outbound + length fs ≤ outbound_cap
    → Memᴰ f fs
    → Memᴰ f.frame (migrate now fs c).outbound
unfolding migrate
migrate-queues now f [] c room m = elim m [ ]
migrate-queues now f (g ∷ fs) c room (Memᴰ.head e) =
    let c' = record c { acks = track now g.frame c.acks } in
    let queued = offer-room g.frame c' (omega (arith, room)) in
    subst (λ h. Memᴰ h.frame (migrate now fs (offer g.frame c').1).outbound) (sym e)
      (migrate-queued now g.frame fs (offer g.frame c').1
        (subst (λ q. Memᴰ g.frame q) (sym queued) (member_last g.frame c.outbound)))
migrate-queues now f (g ∷ fs) c room (Memᴰ.tail m) =
    let c' = record c { acks = track now g.frame c.acks } in
    let queued = offer-room g.frame c' (omega (arith, room)) in
    let longer = ap length queued ∙ length-append g.frame c.outbound in
    migrate-queues now f fs (offer g.frame c').1 (omega (arith, room, longer)) m

All-member : {A : Type 0} (P : A → Type 0) (x : A) (xs : List A) → All P xs → Memᴰ x xs → P x
All-member P x [] h m = elim m [ ]
All-member P x (y ∷ xs) h (Memᴰ.head e) = subst P (sym e) h.0
All-member P x (y ∷ xs) h (Memᴰ.tail m) = All-member P x xs h.1 m

offer-open : (frame : Frame) (c : DeviceConn) → (offer frame c).1.closed ≡ c.closed
unfolding offer
offer-open frame c = elim (Bool-cases (ltb (length c.outbound) outbound_cap)) [
  | inl e ↦ rw e refl
  | inr e ↦ rw e refl
]

migrate-open :
    (now : ℕ) (fs : List TrackedFrame) (c : DeviceConn) → (migrate now fs c).closed ≡ c.closed
unfolding migrate
migrate-open now [] c = refl
migrate-open now (f ∷ fs) c =
    let c' = record c { acks = track now f.frame c.acks } in
    migrate-open now fs (offer f.frame c').1 ∙ offer-open f.frame c'

-- What a connection has of the frames that were pending on the one before.
module _ (old c : DeviceConn) where
  -- Every frame that was pending is tracked, and queued where there is room for all of them; what
  -- was tracked before still is, and an open connection stays open.
  pub record TakesOver (c' : DeviceConn) : Type 0 where
    pub tracks : (k : ℕ) (f : TrackedFrame) → lookup k old.acks ≡ some f → Tracks c' f.frame.msg_id
    pub queues :
        (k : ℕ) (f : TrackedFrame)
        → lookup k old.acks ≡ some f
        → length c.outbound + length old.acks ≤ outbound_cap
        → Memᴰ f.frame c'.outbound
    pub keeps : (id : ℕ) → Tracks c id → Tracks c' id
    pub same_open : c'.closed ≡ c.closed

  pub migrate-TakesOver : (now : ℕ) → TakesOver (migrate now (pending old.acks) c)
  migrate-TakesOver now = record {
    tracks = λ k f found.
        All-member (λ g. Tracks (migrate now (pending old.acks) c) g.frame.msg_id) f
          (pending old.acks) (All-Tracks now (pending old.acks) c)
          (lookup-pending k f old.acks found);
    queues = λ k f found room.
        migrate-queues now f (pending old.acks) c (omega (arith, room, length-pending old.acks))
          (lookup-pending k f old.acks found);
    keeps = λ id h. (migrate-Tracks now id (pending old.acks) c h).1;
    same_open = migrate-open now (pending old.acks) c;
  }
