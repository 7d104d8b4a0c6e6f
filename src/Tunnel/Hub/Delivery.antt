-- ===== src/Tunnel/Hub/Delivery.antt =====
-- What `SendFrame` does on each branch, and what happens to frames when a connection is superseded.
use one_click_agent.Prelude.{
  refl, ℕ, ◌≤◌, ◌<◌, ◌≡◌, true, false, none, some, [], ◌∷◌, ◌++◌, arith, lookup, length, List,
  is_some, ◌+◌, All, lookup-insert, ◌⊎◌, inl, inr,
}
use one_click_agent.Model.{Frame, second}
use mathlib.Core.List.{Memᴰ}
use one_click_agent.Tunnel.Acks.Backoff.{retransmit_ready-retry}
use one_click_agent.Tunnel.Acks.{retransmit_tick, retried, track, TrackedFrame, tracked}
use one_click_agent.Tunnel.Conn.{DeviceConn, offer, outbound_cap, is_ack, tracked_send, migrate}
use one_click_agent.Tunnel.Registry.{Registry}
use one_click_agent.Tunnel.Hub.{Hub, queue_full, send_frame, send_on, put_conn, get_connection}

module _ (R : Registry) where
  -- A frame for a device that has no connection here, or a closed one, is refused and changes
  -- nothing.
  send_frame-refused :
      (now device : ℕ) (frame : Frame) (h : Hub R)
      → (get_connection device h ≡ none)
        ⊎ ((p : ℕ) × (c : DeviceConn) × (get_connection device h ≡ some p)
            × (lookup p h.conns ≡ some c)
            × (c.closed ≡ true))
      → (is_some (send_frame now device frame h).0 ≡ true) × ((send_frame now device frame h).1 ≡ h)
  unfolding send_frame send_on
  send_frame-refused now device frame h (inl e) = (ground arith, ground arith)
  send_frame-refused now device frame h (inr (p, c, at_p, found, shut)) =
      (ground arith, ground arith)

  -- On an open connection with room the frame goes to the end of the queue, and is tracked unless
  -- it is an ACK; nothing else of the hub changes.
  pub send_frame-queued :
      (now device p : ℕ) (frame : Frame) (c : DeviceConn) (h : Hub R)
      → get_connection device h ≡ some p
      → lookup p h.conns ≡ some c
      → c.closed ≡ false
      → length c.outbound < outbound_cap
      → send_frame now device frame h ≡ (
        none,
        put_conn p (record (tracked_send now frame c) { outbound = c.outbound ++ frame ∷ [] }) h,
      )
  unfolding send_frame send_on offer
  send_frame-queued now device p frame c h at_p found opened room = ground arith

  -- On an open connection whose queue is full the caller is told that sending failed, and yet a
  -- frame that is no ACK is in the tracker afterwards as if it had been sent.
  pub send_frame-full :
      (now device p : ℕ) (frame : Frame) (c : DeviceConn) (h : Hub R)
      → get_connection device h ≡ some p
      → lookup p h.conns ≡ some c
      → c.closed ≡ false
      → is_ack frame.type ≡ false
      → outbound_cap ≤ length c.outbound
      → send_frame now device frame h
        ≡ (some queue_full, put_conn p (record c { acks = track now frame c.acks }) h)
  unfolding send_frame send_on offer
  send_frame-full now device p frame c h at_p found opened no_ack full = ground arith

  -- A frame, no ACK, that was refused because the open connection's queue was full goes out after
  -- all: a tick of the retransmitter one second or more later has it among those to send again.
  pub send_frame-full-resent :
      (now later device p : ℕ) (frame : Frame) (c : DeviceConn) (h : Hub R)
      → get_connection device h ≡ some p
      → lookup p h.conns ≡ some c
      → c.closed ≡ false
      → is_ack frame.type ≡ false
      → outbound_cap ≤ length c.outbound
      → now + second ≤ later
      → let (refusal, h') = send_frame now device frame h in
        (refusal ≡ some queue_full)
        × ((c' : DeviceConn) × (lookup p h'.conns ≡ some c')
            × Memᴰ (retried later (tracked now frame)) (retransmit_tick later c'.acks).1)
  unfolding retransmit_tick track
  send_frame-full-resent now later device p frame c h at_p found opened no_ack full wait =
      let f : TrackedFrame = tracked now frame in
      let c' : DeviceConn = record c { acks = track now frame c.acks } in
      rw (send_frame-full now device p frame c h at_p found opened no_ack full) (
        refl,
        (
          c',
          ground (arith, lookup-insert p p c' h.conns),
          retransmit_ready-retry later frame.msg_id f c'.acks
              (ground (arith, lookup-insert frame.msg_id frame.msg_id f c.acks)) (omega arith)
              (omega arith),
        ),
      )

-- The connection tracks the message id.
abbrev pub Tracks : DeviceConn → ℕ → Type 0
Tracks c id = is_some (lookup id c.acks) ≡ true

migrate-kept :
    (now id : ℕ) (fs : List TrackedFrame) (c : DeviceConn)
    → Tracks c id
    → Tracks (migrate now fs c) id
unfolding migrate offer track
migrate-kept now id [] c h = h
migrate-kept now id (f ∷ fs) c h =
    migrate-kept now id fs _
      (ground (arith, lookup-insert f.frame.msg_id id (tracked now f.frame) c.acks))

pub All-Tracks :
    (now : ℕ) (fs : List TrackedFrame) (c : DeviceConn)
    → All (λ f. Tracks (migrate now fs c) f.frame.msg_id) fs
unfolding migrate offer track
All-Tracks now [] c = tt
All-Tracks now (f ∷ fs) c = (
  migrate-kept now f.frame.msg_id fs _
      (ground (arith, lookup-insert f.frame.msg_id f.frame.msg_id (tracked now f.frame) c.acks)),
  All-Tracks now fs _,
)

-- A connection that takes over tracks every frame that was pending on the old one, and whatever it
-- tracked before, also where its queue has no room for them.
pub migrate-Tracks :
    (now id : ℕ) (fs : List TrackedFrame) (c : DeviceConn)
    → Tracks c id
    → All (λ f. Tracks (migrate now fs c) f.frame.msg_id) fs × Tracks (migrate now fs c) id
migrate-Tracks now id fs c h = (All-Tracks now fs c, migrate-kept now id fs c h)
