-- ===== src/VncRelay/Examples.antt =====
-- Runs of the VNC relay: gateway/internal/vncrelay/relay.go.
use one_click_agent.Prelude.{ℕ, ◌+◌, ◌≡◌, refl, false, ◌&&◌, not, some, [], ◌∷◌, lookup, insert}
use one_click_agent.VncRelay.{
  Relay, Session, Status, Request, is_closed, is_expired, new_session, create_session,
  close_session, get_session, reap, close_all,
}
use one_click_agent.VncRelay.Sessions.{live_count, create_session-live_count}
use one_click_agent.VncRelay.Reaper.{reap-none_expired}

abbrev request : Request
request = record {
  job_id = 4;
  user_id = 7;
  device_id = 1;
  agent_id = 3;
  idle_ttl = 50;
  max_ttl = 90;
}

-- A hash that tells tokens apart.
abbrev plus_one : ℕ → ℕ
plus_one t = t + 1

abbrev fresh_session : Session
fresh_session = new_session request 1 11 4096 0

abbrev ended : Session
ended = record fresh_session { status = Status.closed; closed_at = some 5 }

abbrev one_open : Relay
one_open = record { sessions = (1, fresh_session) ∷ []; shut = []; buffer_cap = 4096 }

abbrev one_ended : Relay
one_ended = record { sessions = (1, ended) ∷ []; shut = []; buffer_cap = 4096 }

create_session-live_count_example :
    live_count 4 (create_session plus_one request 2 10 6 one_ended).1.sessions ≡ 1
unfolding lookup
create_session-live_count_example =
    create_session-live_count plus_one request 2 10 6 4 one_ended refl

reap-none_expired_example :
    (not (is_closed Status.closed) && is_expired 200 (record ended { closed_at = some 200 }))
    ≡ false
unfolding get_session lookup reap close_all close_session insert
reap-none_expired_example =
    reap-none_expired 200 1 (record ended { closed_at = some 200 }) one_open refl
