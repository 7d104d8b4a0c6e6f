-- ===== src/Tunnel/Hub/Locking.antt =====
-- Which operations of the hub wait for a mutex that their own goroutine holds.
use mathlib.Core.List.{Memᴰ}
use one_click_agent.Prelude.{
  subst, Option-cases, Bool-cases, inl, inr, ℕ, ◌≡◌, refl, true, false, Option, none, some, List,
  [], ◌∷◌, lookup, arith, insert, map, ◌⊎◌,
}
use one_click_agent.Tunnel.Conn.{DeviceConn}
use one_click_agent.Tunnel.Registry.{Registry}
use one_click_agent.Tunnel.Hub.{
  Hub, close_conn, close, close_device, close_all, close_each, forget, put_conn, supersede,
  register, register_conn, close_stale, check_liveness,
}

module _ (R : Registry) where
  -- Closing a connection that is open and belongs to the hub needs the mutex.
  close-held :
      (code p : ℕ) (c : DeviceConn) (h : Hub R)
      → lookup p h.conns ≡ some c
      → c.closed ≡ false
      → c.hub ≡ true
      → close true code p h ≡ none
  unfolding close close_conn
  close-held code p c h found opened owned = ground arith

  -- `CloseDevice` (the token rotation of a device) never returns for a device whose connection is
  -- open: it holds the mutex, and `Close` waits for it in `Unregister`.
  pub close_device-blocks :
      (device code p : ℕ) (c : DeviceConn) (h : Hub R)
      → lookup device h.devices ≡ some p
      → lookup p h.conns ≡ some c
      → c.closed ≡ false
      → c.hub ≡ true
      → close_device device code h ≡ none
  unfolding close_device
  close_device-blocks device code p c h at_p found opened owned =
      ground (arith, close-held code p c h)

  -- What `Close` of an open connection leaves, if the mutex is free.
  abbrev pub after_close : ℕ → ℕ → DeviceConn → Hub R → Hub R
  after_close code p c h =
      record (forget c.device_id p
        (put_conn p (record c { closed = true; close_code = some code }) h)) {
          registry = R.unregister c.device_id h.registry;
          disconnects = c.device_id ∷ h.disconnects;
        }

  pub close-open :
      (code p : ℕ) (c : DeviceConn) (h : Hub R)
      → lookup p h.conns ≡ some c
      → c.closed ≡ false
      → c.hub ≡ true
      → close false code p h ≡ some (after_close code p c h)
  unfolding close close_conn
  close-open code p c h found opened owned = rw (found, close, opened, owned)

  close_conn-total :
      (code p : ℕ) (c : DeviceConn) (h : Hub R)
      → (h' : Hub R) × (close_conn false code p c h ≡ some h')
  unfolding close_conn
  close_conn-total code p c h = elim (Bool-cases c.closed) [
    | inl e ↦ (h, rw e)
    | inr e ↦ elim (Bool-cases c.hub) [
      | inl o ↦ (after_close code p c h, rw (e, o))
      | inr o ↦ (put_conn p (record c { closed = true; close_code = some code }) h, rw (e, o))
    ]
  ]

  -- With the mutex free `Close` returns, whatever the connection's state.
  pub close-total : (code p : ℕ) (h : Hub R) → (h' : Hub R) × (close false code p h ≡ some h')
  unfolding close
  close-total code p h = elim (Option-cases (lookup p h.conns)) [
    | inl e ↦ (h, rw (e, close))
    | inr (c, e) ↦ let (h', q) = close_conn-total code p c h in (h', rw (e, close) q)
  ]

  supersede-total :
      (now p : ℕ) (c : DeviceConn) (old : Option ℕ) (h : Hub R)
      → (h' : Hub R) × (supersede now p c old h ≡ some h')
  unfolding supersede
  supersede-total now p c none h = (h, refl)
  supersede-total now p c (some old) h = close-total 4002 old _

  register_conn-total :
      (now p : ℕ) (c : DeviceConn) (h : Hub R) → (h' : Hub R) × (register_conn now p c h ≡ some h')
  unfolding register_conn
  register_conn-total now p c h =
      let c' : DeviceConn = record c { hub = true } in
      let h₀ : Hub R = record (put_conn p c' h) { devices = insert c.device_id p h.devices } in
      let (h', e) = supersede-total now p c' (lookup c.device_id h.devices) h₀ in
      (record h' { registry = R.register c.device_id h.node_id now h'.registry }, rw e)

  close_stale-total : (ds : List ℕ) (h : Hub R) → (h' : Hub R) × (close_stale ds h ≡ some h')
  unfolding close_stale
  close_stale-total [] h = (h, refl)
  close_stale-total (device ∷ ds) h = elim (Option-cases (lookup device h.devices)) [
    | inl e ↦ let (h', q) = close_stale-total ds h in (h', rw (e, close_stale) q)
    | inr (p, e) ↦
        let (h₁, q) = close-total 4001 p h in
        let (h₂, r) = close_stale-total ds h₁ in (h₂, rw (e, close_stale, q) r)
  ]

  register-total : (now p : ℕ) (h : Hub R) → (h' : Hub R) × (register now p h ≡ some h')
  unfolding register
  register-total now p h = elim (Option-cases (lookup p h.conns)) [
    | inl e ↦ (h, rw (e, register))
    | inr (c, e) ↦ let (h', q) = register_conn-total now p c h in (h', rw (e, register) q)
  ]

  -- Registering a connection and the liveness check always return: they call `Close` after the
  -- mutex is released.
  pub register_liveness-total :
      (now p threshold : ℕ) (h : Hub R)
      → ((h' : Hub R) × (register now p h ≡ some h'))
        × ((h' : Hub R) × (check_liveness threshold h ≡ some h'))
  unfolding check_liveness
  register_liveness-total now p threshold h =
      (register-total now p h, close_stale-total (R.get_stale threshold h.registry) h)

  -- The mutex is asked for, or nothing changes.
  close-held_cases :
      (code p : ℕ) (h : Hub R)
      → ((q : ℕ) (d : DeviceConn) → lookup q h.conns ≡ some d → d.hub ≡ true)
      → (close true code p h ≡ none) ⊎ (close true code p h ≡ some h)
  unfolding close close_conn
  close-held_cases code p h owned = elim (Option-cases (lookup p h.conns)) [
    | inl e ↦ inr (rw (e, close))
    | inr (c, e) ↦ elim (Bool-cases c.closed) [
      | inl t ↦ inr (rw (e, close, t))
      | inr f ↦ inl (close-held code p c h e f (owned p c e))
    ]
  ]

  close_each-blocks :
      (ps : List ℕ) (p : ℕ) (c : DeviceConn) (h : Hub R)
      → ((q : ℕ) (d : DeviceConn) → lookup q h.conns ≡ some d → d.hub ≡ true)
      → Memᴰ p ps
      → lookup p h.conns ≡ some c
      → c.closed ≡ false
      → close_each ps h ≡ none
  unfolding close_each
  close_each-blocks [] p c h owned m found opened = elim m [ ]
  close_each-blocks (q ∷ ps) p c h owned (Memᴰ.head e) found opened =
      let found' = subst (λ r. lookup r h.conns ≡ some c) e found in
      rw (close-held 1001 q c h found' opened (owned q c found'))
  close_each-blocks (q ∷ ps) p c h owned (Memᴰ.tail m) found opened =
      elim (close-held_cases 1001 q h owned) [
        | inl e ↦ rw e
        | inr e ↦ rw e (close_each-blocks ps p c h owned m found opened)
      ]

  -- `CloseAll` (the shutdown) never returns where the connections belong to the hub and one device
  -- has an open one: `Close` waits in `Unregister` for the mutex that `CloseAll` holds.
  pub close_all-blocks :
      (p : ℕ) (c : DeviceConn) (h : Hub R)
      → ((q : ℕ) (d : DeviceConn) → lookup q h.conns ≡ some d → d.hub ≡ true)
      → Memᴰ p (map (λ e. e.1) h.devices)
      → lookup p h.conns ≡ some c
      → c.closed ≡ false
      → close_all h ≡ none
  unfolding close_all
  close_all-blocks p c h owned m found opened =
      rw (close_each-blocks (map (λ e. e.1) h.devices) p c h owned m found opened)
