-- ===== src/Tunnel/Acks/Backoff.antt =====
-- How often and when the tracker sends a frame again.
use mathlib.Core.List.{Memᴰ}
use one_click_agent.Prelude.{
  lookup, some, Bool-cases, inl, inr, ◌==◌, leb, ap, sym, ℕ, suc, ◌+◌, ◌*◌, ◌^◌, ◌≤◌, ◌<◌, ◌≡◌,
  List, [], ◌∷◌, arith, AllValues, erase-AllValues, erase, false, true,
}
use one_click_agent.Model.{Frame, ack_retransmit_base, ack_retransmit_max_retries}
use one_click_agent.Tunnel.Acks.{
  backoff, retried, TrackedFrame, AckTracker, track, remove, sweep_entry, retransmit_ready,
  remove_failed, retransmit_tick, Sweep,
}

-- The waits of a frame that was first sent at an instant: how often it was sent again so far, and
-- when last. Before the first time it waited 1 s, before the second 2 s, before the third 4 s.
pub data Waits (first : ℕ) : ℕ → ℕ → Type 0 where
  once : Waits first 0 first
  again :
      {r sent : ℕ} (now : ℕ)
      → Waits first r sent
      → sent + ack_retransmit_base * 2 ^ r ≤ now
      → Waits first (suc r) now

-- Whatever sending again keeps, of a frame that may be sent again, a tick keeps of all frames.
module _ (P : ℕ → TrackedFrame → Type 0)
    (keep : (now k : ℕ) (f : TrackedFrame)
      → f.retries < ack_retransmit_max_retries
      → f.sent_at + backoff f ≤ now
      → P k f
      → P k (retried now f)) where
  sweep_entry-frames :
      (now k : ℕ) (f : TrackedFrame) (s : Sweep)
      → P k f
      → AllValues P s.frames
      → AllValues P (sweep_entry now k f s).frames
  unfolding sweep_entry
  sweep_entry-frames now k f s h hs = elim (Bool-cases (leb ack_retransmit_max_retries f.retries)) [
    | inl e ↦ rw e (h, hs)
    | inr e ↦ elim (Bool-cases (leb (f.sent_at + backoff f) now)) [
      | inl w ↦ rw (e, w) (keep now k f (ground arith) (ground arith) h, hs)
      | inr w ↦ rw (e, w) (h, hs)
    ]
  ]

  pub retransmit_ready-AllValues :
      (now : ℕ) (t : AckTracker) → AllValues P t → AllValues P (retransmit_ready now t).frames
  unfolding retransmit_ready
  retransmit_ready-AllValues now [] h = tt
  retransmit_ready-AllValues now ((k, f) ∷ t) h =
      sweep_entry-frames now k f (retransmit_ready now t) h.0 (retransmit_ready-AllValues now t h.1)

  remove_failed-AllValues :
      (ids : List ℕ) (t : AckTracker) → AllValues P t → AllValues P (remove_failed ids t)
  unfolding remove_failed
  remove_failed-AllValues [] t h = h
  remove_failed-AllValues (id ∷ ids) t h =
      remove_failed-AllValues ids (erase id t) (erase-AllValues P id t h)

  pub retransmit_tick-AllValues :
      (now : ℕ) (t : AckTracker) → AllValues P t → AllValues P (retransmit_tick now t).0
  unfolding retransmit_tick
  retransmit_tick-AllValues now t h =
      remove_failed-AllValues _ _ (retransmit_ready-AllValues now t h)

-- What holds of a tracked frame, where `Sent` holds of a frame and the instants at which it was
-- handed over: it is stored under its message id, it was sent again three times at most, and it
-- waited before each, counted from an instant at which it was handed over.
pub record OnSchedule (Sent : Frame → ℕ → Type 0) (k : ℕ) (f : TrackedFrame) : Type 0 where
  pub keyed : k ≡ f.msg_id
  pub capped : f.retries ≤ ack_retransmit_max_retries
  pub first : ℕ
  pub sent_first : Sent f.frame first
  pub waited : Waits first f.retries f.sent_at

abbrev pub IsScheduled : (Frame → ℕ → Type 0) → AckTracker → Type 0
IsScheduled Sent = AllValues (OnSchedule Sent)

-- What happens to a tracker: a frame is sent, an ACK comes in, the retransmitter ticks.
pub data AckEvent : Type 0 where
  sends : ℕ → Frame → AckEvent
  acked : ℕ → AckEvent
  ticks : ℕ → AckEvent

abbrev pub ack_event : AckEvent → AckTracker → AckTracker
ack_event (sends now frame) t = track now frame t
ack_event (acked msg_id) t = remove msg_id t
ack_event (ticks now) t = (retransmit_tick now t).0

pub run_acks : List AckEvent → AckTracker → AckTracker
run_acks [] t = t
run_acks (e ∷ es) t = run_acks es (ack_event e t)

abbrev IsSent : (Frame → ℕ → Type 0) → AckEvent → Type 0
IsSent Sent (sends now frame) = Sent frame now
IsSent Sent (acked msg_id) = Unit
IsSent Sent (ticks now) = Unit

-- The history has the frame sent at the instant.
abbrev pub SentIn : List AckEvent → Frame → ℕ → Type 0
SentIn es frame now = Memᴰ (sends now frame) es

retry_here :
    (now k : ℕ) (f g : TrackedFrame) (s : Sweep)
    → g ≡ f
    → f.retries < ack_retransmit_max_retries
    → f.sent_at + backoff f ≤ now
    → Memᴰ (retried now f) (sweep_entry now k g s).retry
unfolding sweep_entry
retry_here now k f g s e left over =
    let first : leb ack_retransmit_max_retries g.retries ≡ false = ground arith in
    let second : leb (g.sent_at + backoff g) now ≡ true = ground arith in
    rw (first, second) (Memᴰ.head (ap (retried now) (sym e)))

retry_later :
    (now k : ℕ) (f g : TrackedFrame) (s : Sweep)
    → Memᴰ (retried now f) s.retry
    → Memᴰ (retried now f) (sweep_entry now k g s).retry
unfolding sweep_entry
retry_later now k f g s m = elim (Bool-cases (leb ack_retransmit_max_retries g.retries)) [
  | inl e ↦ rw e m
  | inr e ↦ elim (Bool-cases (leb (g.sent_at + backoff g) now)) [
    | inl w ↦ rw (e, w) (Memᴰ.tail m)
    | inr w ↦ rw (e, w) m
  ]
]

-- A frame with retries left whose wait is over is among those that a sweep sends again.
pub retransmit_ready-retry :
    (now k : ℕ) (f : TrackedFrame) (t : AckTracker)
    → lookup k t ≡ some f
    → f.retries < ack_retransmit_max_retries
    → f.sent_at + backoff f ≤ now
    → Memᴰ (retried now f) (retransmit_ready now t).retry
unfolding lookup retransmit_ready
retransmit_ready-retry now k f [] found left over = absurd (cc)
retransmit_ready-retry now k f ((j, g) ∷ t) found left over = elim (Bool-cases (j == k)) [
  | inl e ↦ retry_here now j f g (retransmit_ready now t) (ground arith) left over
  | inr e ↦
      retry_later now j f g (retransmit_ready now t)
        (retransmit_ready-retry now k f t (rw e at found) left over)
]
