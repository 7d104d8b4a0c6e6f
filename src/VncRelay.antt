-- ===== src/VncRelay.antt =====
-- The VNC relay: gateway/internal/vncrelay/relay.go. A session lives in the relay's map; the sockets
-- are numbers, and `shut` lists those that the relay closed. Tokens and their hashes are numbers,
-- and `hash` is `hashToken`, SHA-256 of the standard library. The bytes that `pump` copies are not
-- modelled; what it does to the session is `touch`, and `close_session` when it ends. The mutexes are
-- never asked for twice, so that they do not appear. `now` is in nanoseconds.
mod Sessions
pub mod Ready
mod Reaper
mod Examples
use Prim.Native.String.{String}
use one_click_agent.Prelude.{
  ℕ, ◌+◌, ◌*◌, ◌/◌, Bool, true, false, ◌&&◌, ◌||◌, not, Option, none, some, List, [], ◌∷◌, ◌++◌,
  Dict, lookup, insert, ltb, ◌==◌, if◌then◌else◌, is_some, count_where, select, map,
}
use one_click_agent.Model.{second}

pub data Status : Type 0 where
  pending ready active closed : Status

abbrev pub is_closed : Status → Bool
is_closed Status.closed = true
is_closed _ = false

abbrev pub is_active : Status → Bool
is_active Status.active = true
is_active _ = false

-- `ready_fired`: the channel `readyCh` is closed. `ready_err` is `none` for "".
pub record Session : Type 0 where
  pub id : ℕ
  pub job_id : ℕ
  pub user_id : ℕ
  pub device_id : ℕ
  pub agent_id : ℕ
  pub token_hash : ℕ
  pub rfb_password : String
  pub status : Status
  pub browser : Option ℕ
  pub device : Option ℕ
  pub last_active : ℕ
  pub ready_fired : Bool
  pub ready_err : Option String
  pub idle_ttl : ℕ
  pub max_ttl : ℕ
  pub created_at : ℕ
  pub closed_at : Option ℕ
  pub buffer_cap : ℕ

pub record Relay : Type 0 where
  pub sessions : Dict Session
  pub shut : List ℕ
  pub buffer_cap : ℕ

pub data VncError : Type 0 where
  not_found different_user already_connected invalid_token : VncError

-- What the callers of `CreateSession` ask for.
pub record Request : Type 0 where
  pub job_id : ℕ
  pub user_id : ℕ
  pub device_id : ℕ
  pub agent_id : ℕ
  pub idle_ttl : ℕ
  pub max_ttl : ℕ

abbrev pub is_live_for : ℕ → Session → Bool
is_live_for job s = (s.job_id == job) && not (is_closed s.status)

abbrev pub put_session : ℕ → Session → Relay → Relay
put_session id s r = record r { sessions = insert id s r.sessions }

-- The loop that looks for a live session of the job, and gives it a fresh token.
unfoldable pub reuse : ℕ → ℕ → Dict Session → Option (ℕ × Dict Session)
reuse job token_hash [] = none
reuse job token_hash ((k, s) ∷ d) =
    let rest = reuse job token_hash d in
    if is_live_for job s
    then some (s.id, (k, record s { token_hash = token_hash }) ∷ d)
    else elim rest [ none ↦ none | some (id, d') ↦ some (id, (k, s) ∷ d') ]

abbrev pub new_session : Request → ℕ → ℕ → ℕ → ℕ → Session
new_session q id token_hash buffer_cap now = record {
  id = id;
  job_id = q.job_id;
  user_id = q.user_id;
  device_id = q.device_id;
  agent_id = q.agent_id;
  token_hash = token_hash;
  rfb_password = "";
  status = Status.pending;
  browser = none;
  device = none;
  last_active = 0;
  ready_fired = false;
  ready_err = none;
  idle_ttl = q.idle_ttl;
  max_ttl = q.max_ttl;
  created_at = now;
  closed_at = none;
  buffer_cap = buffer_cap;
}

-- `CreateSession`, given the identifier and the token that it generates: the session's identifier.
unfoldable pub create_session : (ℕ → ℕ) → Request → ℕ → ℕ → ℕ → Relay → ℕ × Relay
create_session hash q id token now r = elim (reuse q.job_id (hash token) r.sessions) [
  | some (old, d) ↦ (old, record r { sessions = d })
  | none ↦ (id, put_session id (new_session q id (hash token) r.buffer_cap now) r)
]

unfoldable pub get_session : ℕ → Relay → Option Session
get_session id r = lookup id r.sessions

-- `MarkReady`: the status is stored whatever it was.
unfoldable pub mark_ready : ℕ → String → Relay → Option VncError × Relay
unfolding get_session
mark_ready id password r = elim (get_session id r) [
  | none ↦ (some not_found, r)
  | some s ↦ (
    none,
    put_session id (record s { rfb_password = password; status = Status.ready; ready_fired = true })
        r,
  )
]

abbrev pub socket : Option ℕ → List ℕ
socket none = []
socket (some ws) = ws ∷ []

abbrev pub closed_session : ℕ → Session → Session
closed_session now s = record s { status = Status.closed; closed_at = some now }

-- `CloseSession`: the first call wins.
unfoldable pub close_session : ℕ → ℕ → Relay → Relay
unfolding get_session
close_session now id r = elim (get_session id r) [
  | none ↦ r
  | some s ↦ if is_closed s.status then r else record (put_session id (closed_session now s) r) {
    shut = socket s.browser ++ socket s.device ++ r.shut;
  }
]

unfoldable pub mark_error : ℕ → ℕ → Option String → Relay → Relay
unfolding get_session
mark_error now id message r = elim (get_session id r) [
  | none ↦ r
  | some s ↦
      close_session now id (put_session id (record s { ready_err = message; ready_fired = true }) r)
]

pub data Waiting : Type 0 where
  unknown_session would_wait : Waiting
  failed : String → Waiting
  unblocked : String → Waiting

abbrev pub awaited : Session → Waiting
awaited s = elim s.ready_err [ none ↦ unblocked s.rfb_password | some e ↦ failed e ]

-- `WaitReady` at one instant; a caller for whom `would_wait` lasts to the timeout gets an error.
unfoldable pub wait_ready : ℕ → Relay → Waiting
unfolding get_session
wait_ready id r = elim (get_session id r) [
  | none ↦ unknown_session
  | some s ↦ if s.ready_fired then awaited s else would_wait
]

abbrev pub touch : ℕ → Session → Session
touch now s = record s { last_active = now / second }

-- Both sockets are there: the session is active, whatever its status was.
abbrev pub maybe_activate : ℕ → Session → Session
maybe_activate now s =
    if is_some s.browser && is_some s.device
    then touch now (record s { status = Status.active })
    else s

unfoldable pub bind_browser : ℕ → ℕ → ℕ → ℕ → Relay → Option VncError × Relay
unfolding get_session
bind_browser now id user ws r = elim (get_session id r) [
  | none ↦ (some not_found, r)
  | some s ↦
      if not (s.user_id == user)
      then (some different_user, r)
      else if is_some s.browser
      then (some already_connected, r)
      else (none, put_session id (maybe_activate now (record s { browser = some ws })) r)
]

unfoldable pub bind_device : (ℕ → ℕ) → ℕ → ℕ → ℕ → ℕ → Relay → Option VncError × Relay
unfolding get_session
bind_device hash now id token ws r = elim (get_session id r) [
  | none ↦ (some not_found, r)
  | some s ↦
      if not (hash token == s.token_hash)
      then (some invalid_token, r)
      else if is_some s.device
      then (some already_connected, r)
      else (none, put_session id (maybe_activate now (record s { device = some ws })) r)
]

unfoldable pub active_count : Relay → ℕ
active_count r = count_where (λ e. is_active e.1.status) r.sessions

unfoldable pub close_all : ℕ → List ℕ → Relay → Relay
close_all now [] r = r
close_all now (id ∷ ids) r = close_all now ids (close_session now id r)

unfoldable pub close_user_sessions : ℕ → ℕ → Relay → Relay
close_user_sessions now user r =
    close_all now
      (map (λ e. e.0)
        (select (λ e. (e.1.user_id == user) && not (is_closed e.1.status)) r.sessions))
      r

-- Older than its longest life, or active and idle for too long.
abbrev pub is_expired : ℕ → Session → Bool
is_expired now s =
    ltb (s.created_at + s.max_ttl) now
    || (is_active s.status && ltb (s.last_active * second + s.idle_ttl) now)

-- One tick of the reaper.
unfoldable pub reap : ℕ → Relay → Relay
reap now r =
    close_all now
      (map (λ e. e.0) (select (λ e. not (is_closed e.1.status) && is_expired now e.1) r.sessions)) r
