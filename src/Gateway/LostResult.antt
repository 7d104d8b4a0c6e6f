-- ===== src/Gateway/LostResult.antt =====
-- A result whose handling fails: `handleFrame` of gateway/internal/tunnel/device_conn.go with
-- `OnJobResult` of gateway/cmd/gateway/main.go.
use one_click_agent.Prelude.{
  ℕ, ◌≡◌, refl, ap, ◌∙◌, Bool, true, none, some, List, [], ◌∷◌, lookup, insert, lookup-insert,
  ==_self, Option,
}
use one_click_agent.Model.{Frame, FrameType, JobResultPayload}
use one_click_agent.World.{World, ok, err, db_error, db}
use one_click_agent.Tunnel.Conn.{DeviceConn}
use one_click_agent.Store.Jobs
use one_click_agent.Gateway.Handlers.{Gateway, on_job_result}
use one_click_agent.Gateway.Inbound.{Decoder, acked, route, handle_frame, update_conn, remember}

-- The connection once the frame's id is remembered.
abbrev remembering : Frame → World → DeviceConn → DeviceConn
remembering f w c = record c { processed = insert f.msg_id w.now c.processed }

-- The state in which a frame was remembered and a fault was spent.
abbrev after_fault : ℕ → Frame → DeviceConn → List Bool → World → World
after_fault p f c fs w = record w {
  hub = record w.hub { conns = insert p (remembering f w c) w.hub.conns };
  faults = fs;
}

handle_frame-fails :
    (g : Gateway) (d : Decoder) (p : ℕ) (f : Frame) (r : JobResultPayload) (c : DeviceConn)
    → (fs : List Bool) (w : World) → lookup p w.hub.conns ≡ some c
    → lookup f.msg_id c.processed ≡ none
    → d.result f.payload ≡ some r
    → handle_frame g d p
        (record f { type = FrameType.job_result })
        (record w { faults = true ∷ fs })
      ≡ (ok (acked f.msg_id ∷ [], err db_error), after_fault p f c fs w)
unfolding handle_frame route on_job_result Jobs.update_result db
handle_frame-fails g d p f r c fs w there new decodes =
    let v = record w { faults = true ∷ fs } in
    let result = record f { type = FrameType.job_result } in
    let write = λ (e : Option DeviceConn). update_conn e p (remembering f w) v in
    let remembered : remember p result v ≡ write (some c) = ap write there in
    rw (there, new, remembered, decodes) refl

handle_frame-only_acks :
    (g : Gateway) (d : Decoder) (p : ℕ) (f : Frame) (c : DeviceConn) (fs : List Bool) (w : World)
    → handle_frame g d p (record f { type = FrameType.job_result }) (after_fault p f c fs w)
      ≡ (ok (acked f.msg_id ∷ [], ok tt), after_fault p f c fs w)
unfolding handle_frame
handle_frame-only_acks g d p f c fs w =
    let there : lookup p (insert p (remembering f w c) w.hub.conns) ≡ some (remembering f w c) =
      lookup-insert p p (remembering f w c) w.hub.conns ∙ rw (==_self p) refl in
    let known : lookup f.msg_id (insert f.msg_id w.now c.processed) ≡ some w.now =
      lookup-insert f.msg_id f.msg_id w.now c.processed ∙ rw (==_self f.msg_id) refl in
    rw (there, known) refl

-- Where a JOB_RESULT that the connection has not seen decodes and the database call that stores it
-- fails: the device is sent an acknowledgement all the same, and when the frame comes in again it is
-- acknowledged without being handled, so that the jobs are as they were before the result.
pub handle_frame-loses_result :
    (g : Gateway) (d : Decoder) (p : ℕ) (f : Frame) (r : JobResultPayload) (c : DeviceConn)
    → (fs : List Bool) (w : World) → f.type ≡ FrameType.job_result
    → lookup p w.hub.conns ≡ some c
    → lookup f.msg_id c.processed ≡ none
    → d.result f.payload ≡ some r
    → w.faults ≡ true ∷ fs
    → let first = handle_frame g d p f w in
      let again = handle_frame g d p f first.1 in
      (first.0 ≡ ok (acked f.msg_id ∷ [], err db_error))
      × (again.0 ≡ ok (acked f.msg_id ∷ [], ok tt))
      × (again.1.jobs ≡ w.jobs)
handle_frame-loses_result g d p f r c fs w type there new decodes fault =
    let result = record f { type = FrameType.job_result } in
    let fails =
      ap (λ t. handle_frame g d p (record f { type = t }) w) type
      ∙ ap (λ gs. handle_frame g d p result (record w { faults = gs })) fault
      ∙ handle_frame-fails g d p f r c fs w there new decodes in
    let acks =
      ap (λ v. handle_frame g d p f v.1) fails
      ∙ ap (λ t. handle_frame g d p (record f { type = t }) (after_fault p f c fs w)) type
      ∙ handle_frame-only_acks g d p f c fs w in
    (ap (λ v. v.0) fails, ap (λ v. v.0) acks, ap (λ v. v.1.jobs) acks)
