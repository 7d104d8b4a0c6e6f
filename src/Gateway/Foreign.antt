-- ===== src/Gateway/Foreign.antt =====
-- Which device a frame about a VNC session comes from: `handleFrame` of
-- gateway/internal/tunnel/device_conn.go with `OnVNCOpened` of gateway/cmd/gateway/main.go.
use one_click_agent.Prelude.{
  ℕ, ◌≡◌, refl, ap, ◌∙◌, true, none, some, [], ◌∷◌, lookup, insert, Option,
}
use one_click_agent.Model.{Frame, FrameType, VncOpenedPayload}
use one_click_agent.World.{World, ok}
use one_click_agent.Tunnel.Conn.{DeviceConn}
use one_click_agent.VncRelay.{Session, wait_ready, unblocked}
use one_click_agent.VncRelay.Ready.{readied, mark_ready-known, wait_ready-known}
use one_click_agent.Gateway.Handlers.{Gateway, on_vnc_opened}
use one_click_agent.Gateway.Inbound.{Decoder, acked, route, handle_frame, update_conn, remember}

module _ (p : ℕ) (f : Frame) (o : VncOpenedPayload) (c : DeviceConn) (s : Session) (w : World) where
  abbrev remembered : World
  remembered = record w {
    hub = record w.hub {
      conns = insert p (record c { processed = insert f.msg_id w.now c.processed }) w.hub.conns;
    };
  }

  handle_frame-readied :
      (g : Gateway) (d : Decoder)
      → lookup p w.hub.conns ≡ some c
      → lookup f.msg_id c.processed ≡ none
      → d.vnc_opened f.payload ≡ some o
      → o.is_ready ≡ true
      → lookup o.session_id w.vnc.sessions ≡ some s
      → handle_frame g d p (record f { type = FrameType.vnc_opened }) w ≡ (
        ok (acked f.msg_id ∷ [], ok tt),
        record remembered { vnc = readied o.session_id o.rfb_password s w.vnc },
      )
  unfolding handle_frame route on_vnc_opened
  handle_frame-readied g d there new decodes is_ready known =
      let opened = record f { type = FrameType.vnc_opened } in
      let write = λ (e : Option DeviceConn).
        update_conn e p (λ k. record k { processed = insert f.msg_id w.now k.processed }) w in
      let kept : remember p opened w ≡ write (some c) = ap write there in
      rw
        (
          there,
          new,
          kept,
          decodes,
          is_ready,
          mark_ready-known o.session_id o.rfb_password s w.vnc known,
        )
        refl

  -- Where a VNC_OPENED that the connection has not seen decodes to a report that a session is ready,
  -- and the session is in the relay with no error: the frame is handled without an error, and
  -- whoever waits for the session is given the frame's password, whichever device the session is
  -- for and whichever sent the frame.
  pub handle_frame-readies_any :
      (g : Gateway) (d : Decoder)
      → f.type ≡ FrameType.vnc_opened
      → lookup p w.hub.conns ≡ some c
      → lookup f.msg_id c.processed ≡ none
      → d.vnc_opened f.payload ≡ some o
      → o.is_ready ≡ true
      → lookup o.session_id w.vnc.sessions ≡ some s
      → s.ready_err ≡ none
      → let end = handle_frame g d p f w in
        (end.0 ≡ ok (acked f.msg_id ∷ [], ok tt))
        × (wait_ready o.session_id end.1.vnc ≡ unblocked o.rfb_password)
  handle_frame-readies_any g d type there new decodes is_ready known fine =
      let e =
        ap (λ t. handle_frame g d p (record f { type = t }) w) type
        ∙ handle_frame-readied g d there new decodes is_ready known in
      (
        ap (λ v. v.0) e,
        ap (λ v. wait_ready o.session_id v.1.vnc) e
            ∙ wait_ready-known o.session_id o.rfb_password s w.vnc fine,
      )
