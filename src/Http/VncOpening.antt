-- ===== src/Http/VncOpening.antt =====
-- A VNC session from the request to the answer: `handleOpenVNC` of
-- gateway/internal/httpapi/vnc_handler.go, with `OnVNCOpened` of gateway/cmd/gateway/main.go in
-- between.
use Prim.Native.String.{String}
use one_click_agent.Prelude.{
  ℕ, suc, ◌≡◌, refl, ap, sym, ◌∙◌, Bool, true, Option, none, some, lookup, insert, lookup-insert,
  ==_self, subst, find_first, if◌then◌else◌, ◌==◌, [],
}
use one_click_agent.Model.{Job, JobStatus, VncOpenedPayload}
use one_click_agent.World.{World, Result, ok, next, settled, return, db}
use one_click_agent.Tunnel.Hub.{Hub, SendError}
use one_click_agent.Tunnel.Registry.{in_memory}
use one_click_agent.Pool.Frames.{sent, send, new_frame, framed}
use one_click_agent.Store.Jobs
use one_click_agent.VncRelay
use one_click_agent.VncRelay.{
  Session, Status, Relay, create_session, new_session, put_session, reuse, get_session, mark_ready,
  wait_ready, unblocked,
}
use one_click_agent.VncRelay.Ready.{readied, mark_ready-known, wait_ready-known}
use one_click_agent.Gateway.Handlers.{on_vnc_opened, on_relay}
use one_click_agent.Http.Answers.{Answer, created, with_own_job}
use one_click_agent.Http.Vnc.{
  VncConfig, Opening, awaited, reused, open_session, opened, ask_device, handle_open_vnc,
  answer_open, after_wait, session_request, is_pending,
}

-- Whether the frame was sent or not, the answer is the same and the relay as it was.
sent_either :
    {A : Type 0} (a : A) (r : Option SendError × Hub in_memory) (v : World)
    → let end =
        next
          (next (settled (sent r v)) (λ (_ : Result (Unit {0})). return tt))
          (λ (_ : Unit {0}). return a) in
      (end.0 ≡ ok a) × (end.1.vnc ≡ v.vnc)
sent_either a (none, hub) v = (refl, refl)
sent_either a (some e, hub) v = (refl, refl)

module _ (c : VncConfig) (q : VncRelay.Request) where
  ask_device-awaits :
      (session token : ℕ) (v : World)
      → let end = ask_device c q session token v in
        (end.0 ≡ ok (created (awaited session token))) × (end.1.vnc ≡ v.vnc)
  unfolding new_frame framed send
  ask_device-awaits session token v = sent_either _ _ _

  abbrev fresh_session : World → Session
  fresh_session w = new_session q w.fresh (c.hash_token (suc w.fresh)) w.vnc.buffer_cap w.now

  create_session-new :
      (w : World)
      → reuse q.job_id (c.hash_token (suc w.fresh)) w.vnc.sessions ≡ none
      → create_session c.hash_token q w.fresh (suc w.fresh) w.now w.vnc
        ≡ (w.fresh, put_session w.fresh (fresh_session w) w.vnc)
  unfolding create_session
  create_session-new w unused = rw (create_session, unused) refl

  fresh_session-known :
      (w : World)
      → lookup w.fresh (insert w.fresh (fresh_session w) w.vnc.sessions) ≡ some (fresh_session w)
  fresh_session-known w =
      lookup-insert w.fresh w.fresh (fresh_session w) w.vnc.sessions ∙ rw (==_self w.fresh) refl

  fresh_session-pending :
      (w : World)
      → is_pending (get_session w.fresh (put_session w.fresh (fresh_session w) w.vnc)) ≡ true
  unfolding get_session
  fresh_session-pending w = ap is_pending (fresh_session-known w)

  -- What follows once the session is there.
  abbrev proceed : World → Bool → ℕ × Relay → Result (Answer Opening) × World
  proceed w pending r =
      (if pending
          then ask_device c q r.0 (suc w.fresh)
          else return (created (reused r.0 (suc w.fresh))))
        (record w { fresh = suc (suc w.fresh); vnc = r.1 })

  abbrev Awaits : World → Result (Answer Opening) × World → Type 0
  Awaits w end =
      (end.0 ≡ ok (created (awaited w.fresh (suc w.fresh))))
      × (end.1.vnc ≡ put_session w.fresh (fresh_session w) w.vnc)

  opened-Awaits :
      (w : World)
      → reuse q.job_id (c.hash_token (suc w.fresh)) w.vnc.sessions ≡ none
      → Awaits w (opened c q w)
  unfolding open_session
  opened-Awaits w unused =
      let made = put_session w.fresh (fresh_session w) w.vnc in
      subst (λ r. Awaits w (proceed w (is_pending (get_session r.0 r.1)) r))
        (sym (create_session-new w unused))
        (subst (λ b. Awaits w (proceed w b (w.fresh, made))) (sym (fresh_session-pending w))
          (ask_device-awaits w.fresh (suc w.fresh)
            (record w { fresh = suc (suc w.fresh); vnc = made })))

-- The report of a device that a session is ready.
abbrev pub ready_report : ℕ → String → VncOpenedPayload
ready_report id password = record {
  session_id = id;
  is_ready = true;
  rfb_password = password;
  error = none;
}

-- The end of the request, once the device reports that a session is ready that the relay knows.
answer_open-readied :
    (id : ℕ) (password : String) (s : Session) (r : Relay) (v : World)
    → v.vnc ≡ r
    → lookup id r.sessions ≡ some s
    → s.ready_err ≡ none
    → let end = on_vnc_opened (ready_report id password) v in
      (end.0 ≡ ok tt) × ((answer_open id end.1).0 ≡ ok (created password))
unfolding on_vnc_opened answer_open
answer_open-readied id password s r v same known fine =
    let marked : mark_ready id password v.vnc ≡ (none, readied id password s r) =
      ap (λ x. mark_ready id password x) same ∙ mark_ready-known id password s r known in
    let e : on_relay (mark_ready id password v.vnc) v
        ≡ (ok tt, record v { vnc = readied id password s r }) =
      ap (λ m. on_relay m v) marked in
    (
      ap (λ x. x.0) e,
      ap (λ x. (after_wait (wait_ready id x.1.vnc) x.1).0) e
          ∙ ap (λ x. (after_wait x (record v { vnc = readied id password s r })).0)
              (wait_ready-known id password s r fine),
    )

module _ (c : VncConfig) (user id agent device : ℕ) (job : Job) (password : String)
    (w : World) where
  handle_open_vnc-opens :
      find_first (Jobs.has_id id) w.jobs ≡ some job
      → (job.user_id == user) ≡ true
      → job.status ≡ JobStatus.running
      → job.agent_id ≡ some agent
      → job.device_id ≡ some device
      → handle_open_vnc c user id (record w { faults = [] })
        ≡ opened c (session_request c user job agent device) (record w { faults = [] })
  unfolding handle_open_vnc with_own_job Jobs.get_by_id db
  handle_open_vnc-opens there own running assigned placed =
      rw (there, own, running, assigned, placed) refl

  abbrev first : World → Result (Answer Opening) × World
  first v = handle_open_vnc c user id v

  -- The token is drawn right after the session's id.
  abbrev Opens : World → Type 0
  Opens v =
      let second = on_vnc_opened (ready_report w.fresh password) (first v).1 in
      ((first v).0 ≡ ok (created (awaited w.fresh (suc w.fresh))))
      × (second.0 ≡ ok tt)
      × ((answer_open w.fresh second.1).0 ≡ ok (created password))

  handle_open_vnc-calm :
      handle_open_vnc c user id (record w { faults = [] })
        ≡ opened c (session_request c user job agent device) (record w { faults = [] })
      → reuse job.id (c.hash_token (suc w.fresh)) w.vnc.sessions ≡ none
      → Opens (record w { faults = [] })
  handle_open_vnc-calm runs unused =
      let q = session_request c user job agent device in
      let v = record w { faults = [] } in
      let (answer, relay) = opened-Awaits c q v unused in
      let (marked, told) =
        answer_open-readied w.fresh password (fresh_session c q v)
          (put_session w.fresh (fresh_session c q v) w.vnc) (first v).1
          (ap (λ x. x.1.vnc) runs ∙ relay) (fresh_session-known c q v) refl in
      (ap (λ x. x.0) runs ∙ answer, marked, told)

  -- Where no call of the environment fails, and a job is the user's, runs, has an agent on a device,
  -- and has no live session in the relay: a request to open one makes a new session and waits, and
  -- once the device has reported that session ready with a password, the request is answered with
  -- that password, whether or not the VNC_OPEN could be sent.
  pub handle_open_vnc-ready :
      w.faults ≡ []
      → find_first (Jobs.has_id id) w.jobs ≡ some job
      → (job.user_id == user) ≡ true
      → job.status ≡ JobStatus.running
      → job.agent_id ≡ some agent
      → job.device_id ≡ some device
      → reuse job.id (c.hash_token (suc w.fresh)) w.vnc.sessions ≡ none
      → let opening = handle_open_vnc c user id w in
        let second = on_vnc_opened (ready_report w.fresh password) opening.1 in
        (opening.0 ≡ ok (created (awaited w.fresh (suc w.fresh))))
        × (second.0 ≡ ok tt)
        × ((answer_open w.fresh second.1).0 ≡ ok (created password))
  handle_open_vnc-ready calm there own running assigned placed unused =
      subst (λ fs. Opens (record w { faults = fs })) (sym calm)
        (handle_open_vnc-calm (handle_open_vnc-opens there own running assigned placed) unused)
