-- ===== src/VncRelay/Ready.antt =====
-- What `MarkReady` of gateway/internal/vncrelay/relay.go means for whoever waits in `WaitReady`.
use Prim.Native.String.{String}
use one_click_agent.Prelude.{
  ℕ, ◌≡◌, refl, ◌∙◌, none, some, lookup, insert, lookup-insert, ==_self, true,
}
use one_click_agent.VncRelay.{
  Session, Status, Relay, mark_ready, put_session, get_session, wait_ready, unblocked,
}

module _ (id : ℕ) (password : String) (s : Session) (r : Relay) where
  -- The session once it is ready.
  abbrev pub ready_session : Session
  ready_session = record s { rfb_password = password; status = Status.ready; ready_fired = true }

  abbrev pub readied : Relay
  readied = put_session id ready_session r

  pub mark_ready-known : lookup id r.sessions ≡ some s → mark_ready id password r ≡ (none, readied)
  unfolding mark_ready get_session
  mark_ready-known known = rw (mark_ready, get_session, known)

  pub wait_ready-known : s.ready_err ≡ none → wait_ready id readied ≡ unblocked password
  unfolding wait_ready get_session
  wait_ready-known fine =
      let there : lookup id (insert id ready_session r.sessions) ≡ some ready_session =
        lookup-insert id id ready_session r.sessions ∙ rw (==_self id) refl in
      rw (wait_ready, get_session, there, fine) refl
