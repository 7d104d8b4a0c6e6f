-- ===== src/Tunnel/Hub/Routing.antt =====
-- Which connection a device has after a new one registers, and after a late unregistration.
use one_click_agent.Prelude.{
  ℕ, Dict, ◌≡◌, refl, ◌≢◌, true, false, some, ◌∷◌, arith, lookup, insert, lookup-insert,
  if◌then◌else◌, ◌==◌,
}
use one_click_agent.Tunnel.Acks.{pending}
use one_click_agent.Tunnel.Conn.{DeviceConn, migrate}
use one_click_agent.Tunnel.Registry.{Registry}
use one_click_agent.Tunnel.Hub.{
  Hub, put_conn, forget, register, register_conn, supersede, unregister, get_connection,
}
use one_click_agent.Tunnel.Hub.Takeover.{TakesOver, migrate-TakesOver}
use one_click_agent.Tunnel.Hub.Locking.{close-open, after_close}

module _ (R : Registry) where
  open R use {is_online as registered, get_node}

  -- The hub with the new connection in place, before the old one is closed.
  abbrev taken_over : ℕ → ℕ → DeviceConn → DeviceConn → Hub R → Hub R
  taken_over now p c old h =
      let h' = record (put_conn p (record c { hub = true }) h) {
        devices = insert c.device_id p h.devices;
      } in
      put_conn p (migrate now (pending old.acks) (record c { hub = true })) h'

  abbrev superseding : ℕ → ℕ → ℕ → DeviceConn → DeviceConn → Hub R → Hub R
  superseding now p q c old h =
      let h' = after_close R 4002 q old (taken_over now p c old h) in
      record h' { registry = R.register c.device_id h.node_id now h'.registry }

  register-superseding :
      (now p q : ℕ) (c old : DeviceConn) (h : Hub R)
      → lookup p h.conns ≡ some c
      → lookup c.device_id h.devices ≡ some q
      → lookup q h.conns ≡ some old
      → p ≢ q
      → old.closed ≡ false
      → old.hub ≡ true
      → register now p h ≡ some (superseding now p q c old h)
  unfolding register register_conn supersede
  register-superseding now p q c old h found at_q found_old differ opened owned =
      let c' : DeviceConn = record c { hub = true } in
      ground (
        arith,
        lookup-insert p q c' h.conns,
        lookup-insert p q (migrate now (pending old.acks) c') (insert p c' h.conns),
        close-open R 4002 q old (taken_over now p c old h),
      )

  -- Where a device has an open connection and another one registers: the device is routed to the
  -- new connection and registered under this node, every other device keeps its route and its
  -- registration, the old connection is closed with code 4002, and the new one tracks every frame
  -- that was pending on the old one, has queued them all where its queue has room for all of them,
  -- and tracks what it tracked before. In between, the device is reported disconnected.
  pub register-supersedes :
      (now p q : ℕ) (c old : DeviceConn) (h : Hub R)
      → lookup p h.conns ≡ some c
      → lookup c.device_id h.devices ≡ some q
      → lookup q h.conns ≡ some old
      → p ≢ q
      → old.closed ≡ false
      → old.hub ≡ true
      → old.device_id ≡ c.device_id
      → (h' : Hub R) × (register now p h ≡ some h')
        × ((e : ℕ)
            → get_connection e h' ≡ (if c.device_id == e then some p else get_connection e h))
        × ((e : ℕ)
            → get_node e h'.registry
              ≡ (if c.device_id == e then some h.node_id else get_node e h.registry))
        × (lookup q h'.conns ≡ some (record old { closed = true; close_code = some 4002 }))
        × ((c' : DeviceConn) × (lookup p h'.conns ≡ some c')
            × TakesOver old (record c { hub = true }) c')
        × (h'.disconnects ≡ c.device_id ∷ h.disconnects)
  unfolding get_connection
  register-supersedes now p q c old h found at_q found_old differ opened owned same =
      let c' : DeviceConn = record c { hub = true } in
      let moved : DeviceConn = migrate now (pending old.acks) c' in
      let heap : Dict DeviceConn = insert p moved (insert p c' h.conns) in
      let gone : DeviceConn = record old { closed = true; close_code = some 4002 } in
      let here = lookup-insert c.device_id old.device_id p h.devices in
      (
        superseding now p q c old h,
        register-superseding now p q c old h found at_q found_old differ opened owned,
        λ e. ground (arith, here, lookup-insert c.device_id e p h.devices),
        λ e. ground (
          arith,
          R.get_node-register c.device_id e now h.node_id (R.unregister old.device_id h.registry),
          R.get_node-unregister old.device_id e h.registry,
        ),
        ground (arith, here, lookup-insert q q gone heap),
        (
          moved,
          ground (
            arith,
            here,
            lookup-insert q p gone heap,
            lookup-insert p p moved (insert p c' h.conns),
          ),
          migrate-TakesOver old c' now,
        ),
        ground arith,
      )

  -- A connection that unregisters after another one took its place loses the device its entry in
  -- the registry and has it reported disconnected, although the device keeps its open connection.
  pub unregister_late :
      (device p q : ℕ) (h : Hub R)
      → get_connection device h ≡ some p
      → p ≢ q
      → (h' : Hub R) × (unregister false device q h ≡ some h')
        × (get_connection device h' ≡ some p)
        × (registered device h'.registry ≡ false)
        × (h'.disconnects ≡ device ∷ h.disconnects)
  unfolding unregister get_connection
  unregister_late device p q h at_p differ = (
    record (forget device q h) {
      registry = R.unregister device h.registry;
      disconnects = device ∷ h.disconnects;
    },
    refl,
    ground arith,
    ground (arith, R.is_online-unregister device device h.registry),
    refl,
  )
