-- ===== src/Tunnel/Hub.antt =====
-- The hub: gateway/internal/tunnel/hub.go, over any registry that keeps the laws. Connections are
-- pointers into `conns`, so that two connections of one device are told apart. The mutex `h.mu` is
-- not reentrant: an operation that asks for it is told whether its goroutine holds it already, and
-- is `none` where it would wait for itself. The argument `now` is the clock.
mod Routing
mod Locking
mod Delivery
mod Takeover
mod Examples
use Prim.Native.String.{String}
use one_click_agent.Prelude.{
  ℕ, Bool, true, false, Option, none, some, List, [], ◌∷◌, Dict, lookup, insert, erase, length,
  if◌then◌else◌, is_some, is_some_eq, map,
}
use one_click_agent.Model.{Frame}
use one_click_agent.Tunnel.Conn.{DeviceConn, offer, retransmit, migrate, pending_of, tracked_send}
use one_click_agent.Tunnel.Registry.{Registry}

-- The fields that the modelled operations use. `disconnects` lists the calls of `onDisconnect`.
pub record Hub (R : Registry) : Type 0 where
  pub registry : R.State
  pub node_id : String
  pub devices : Dict ℕ
  pub conns : Dict DeviceConn
  pub disconnects : List ℕ

infixl 5 ◌>>=◌
abbrev pub ◌>>=◌ {ℓ κ} : {A : Type ℓ} {B : Type κ} → Option A → (A → Option B) → Option B
none >>= f = none
some a >>= f = f a

pub data SendError : Type 0 where
  offline conn_closed queue_full : SendError

abbrev pub send_result : Bool → Option SendError
send_result true = none
send_result false = some queue_full

module _ {R : Registry} where
  -- A write through the pointer `p`.
  abbrev pub put_conn : ℕ → DeviceConn → Hub R → Hub R
  put_conn p c h = record h { conns = insert p c h.conns }

  unfoldable pub get_connection : ℕ → Hub R → Option ℕ
  get_connection device h = lookup device h.devices

  unfoldable pub is_online : ℕ → Hub R → Bool
  unfolding get_connection
  is_online device h = is_some (get_connection device h)

  unfoldable pub online_count : Hub R → ℕ
  online_count h = length h.devices

  -- The part of `Unregister` under the mutex: only the connection that is current is taken out.
  abbrev pub forget : ℕ → ℕ → Hub R → Hub R
  forget device p h =
      if is_some_eq (lookup device h.devices) p
      then record h { devices = erase device h.devices }
      else h

  unfoldable pub unregister : Bool → ℕ → ℕ → Hub R → Option (Hub R)
  unregister true device p h = none
  unregister false device p h = some (record (forget device p h) {
    registry = R.unregister device h.registry;
    disconnects = device ∷ h.disconnects;
  })

  -- `Close`, after the pointer is followed: the first call wins.
  unfoldable pub close_conn : Bool → ℕ → ℕ → DeviceConn → Hub R → Option (Hub R)
  unfolding unregister
  close_conn held code p c h =
      if c.closed
      then some h
      else (let h' = put_conn p (record c { closed = true; close_code = some code }) h in
          if c.hub then unregister held c.device_id p h' else some h')

  unfoldable pub close : Bool → ℕ → ℕ → Hub R → Option (Hub R)
  close held code p h = elim (lookup p h.conns) [
    | none ↦ some h
    | some c ↦ close_conn held code p c h
  ]

  -- What `Register` does with the connection that it supersedes, if there is one.
  unfoldable pub supersede : ℕ → ℕ → DeviceConn → Option ℕ → Hub R → Option (Hub R)
  supersede now p c none h = some h
  supersede now p c (some old) h =
      close false 4002 old (put_conn p (migrate now (pending_of (lookup old h.conns)) c) h)

  -- `Register` of the connection `c` at the pointer `p`.
  unfoldable pub register_conn : ℕ → ℕ → DeviceConn → Hub R → Option (Hub R)
  register_conn now p c h = do
    let c' = record c { hub = true }
    let existing = lookup c.device_id h.devices
    let h' = record (put_conn p c' h) { devices = insert c.device_id p h.devices }
    h'' ← supersede now p c' existing h'
    some (record h'' { registry = R.register c.device_id h.node_id now h''.registry })

  unfoldable pub register : ℕ → ℕ → Hub R → Option (Hub R)
  register now p h = elim (lookup p h.conns) [ none ↦ some h | some c ↦ register_conn now p c h ]

  unfoldable pub send_on : ℕ → ℕ → Frame → DeviceConn → Hub R → Option SendError × Hub R
  send_on now p frame c h =
      if c.closed
      then (some conn_closed, h)
      else (let (taken, c') = offer frame (tracked_send now frame c) in
          (send_result taken, put_conn p c' h))

  -- `SendFrame`.
  unfoldable pub send_frame : ℕ → ℕ → Frame → Hub R → Option SendError × Hub R
  unfolding get_connection
  send_frame now device frame h = elim (get_connection device h) [
    | none ↦ (some offline, h)
    | some p ↦ elim (lookup p h.conns) [
      | none ↦ (some offline, h)
      | some c ↦ send_on now p frame c h
    ]
  ]

  -- `CloseDevice` calls `Close` with the mutex held.
  unfoldable pub close_device : ℕ → ℕ → Hub R → Option (Hub R)
  close_device device code h = elim (lookup device h.devices) [
    | none ↦ some h
    | some p ↦ close true code p h
  ]

  close_each : List ℕ → Hub R → Option (Hub R)
  close_each [] h = some h
  close_each (p ∷ ps) h = close true 1001 p h >>= close_each ps

  -- `CloseAll` calls `Close` with the mutex held, too.
  unfoldable pub close_all : Hub R → Option (Hub R)
  unfolding close_each
  close_all h = do h' ← close_each (map (λ e. e.1) h.devices) h; some (record h' { devices = [] })

  close_stale : List ℕ → Hub R → Option (Hub R)
  close_stale [] h = some h
  close_stale (device ∷ ds) h = elim (lookup device h.devices) [
    | none ↦ close_stale ds h
    | some p ↦ close false 4001 p h >>= close_stale ds
  ]

  -- `checkLiveness`; `threshold` is the clock less the heartbeat threshold.
  unfoldable pub check_liveness : ℕ → Hub R → Option (Hub R)
  unfolding close_stale
  check_liveness threshold h = close_stale (R.get_stale threshold h.registry) h

  unfoldable pub retransmit_at : ℕ → ℕ → Hub R → Hub R
  retransmit_at now p h = elim (lookup p h.conns) [
    | none ↦ h
    | some c ↦ put_conn p (retransmit now c) h
  ]
