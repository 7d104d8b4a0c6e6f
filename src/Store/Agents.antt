-- ===== src/Store/Agents.antt =====
-- `AgentStore`: gateway/internal/store/agents.go, with the table's constraints from
-- gateway/migrations/001_initial_schema.up.sql.
use Prim.Native.String.{String}
use one_click_agent.Prelude.{
  ℕ, Bool, ◌&&◌, ◌||◌, not, Option, none, some, List, [], ◌∷◌, ◌++◌, ltb, ◌==◌, if◌then◌else◌,
  is_some_eq, is_none, find_first, count_where, select, ◌+◌,
}
use one_click_agent.Model.{Agent, AgentStatus, AgentLimits, is_idle, is_failed}
use one_click_agent.World.{World, M, ok, err, db_error, db}
use one_click_agent.Store.Rows.{update_where, first_by, sort_by}

abbrev pub update_agents : (Agent → Bool) → (ℕ → Agent → Agent) → World → World
update_agents p f w = record w { agents = update_where p (f w.now) w.agents }

abbrev pub exec : (World → World) → M (Unit {0})
exec f = db (λ w. (ok tt, f w))

abbrev pub query : {A : Type 0} → (World → A) → M A
query f = db (λ w. (ok (f w), w))

abbrev pub has_id : ℕ → Agent → Bool
has_id id a = a.id == id

abbrev pub default_limits : AgentLimits
default_limits = record { cpu = 2; mem_mb = 4096; disk_mb = 10240 }

abbrev pub limits_or_default : Option AgentLimits → AgentLimits
limits_or_default none = default_limits
limits_or_default (some l) = l

-- `Create` keeps the caller's id; the instants and missing limits are filled in.
abbrev pub stamped : ℕ → Agent → Agent
stamped now a = record a {
  limits = some (limits_or_default a.limits);
  created_at = now;
  updated_at = now;
}

-- `allocated_at` is no column of the INSERT.
abbrev pub inserted : Agent → Agent
inserted a = record a { allocated_at = none }

-- PRIMARY KEY (id) and UNIQUE (device_id, port).
abbrev pub clashes : Agent → Agent → Bool
clashes a b = (a.id == b.id) || ((a.device_id == b.device_id) && (a.port == b.port))

-- The insertion, given how many rows clash with the new one.
abbrev pub insert_unless : ℕ → Agent → M (Unit {0})
insert_unless n a w =
    if n == 0
    then (ok tt, record w { agents = w.agents ++ inserted (stamped w.now a) ∷ [] })
    else (err db_error, w)

-- `Create` of an agent whose id is set, as in `EnsurePoolSize`.
unfoldable pub create : Agent → M (Unit {0})
create a = db (λ w. insert_unless (count_where (clashes a) w.agents) a w)

unfoldable pub get_by_id : ℕ → M (Option Agent)
get_by_id id = query (λ w. find_first (has_id id) w.agents)

abbrev pub is_free : Agent → Bool
is_free a = is_idle a.status && is_none a.user_id

abbrev pub older : Agent → Agent → Bool
older a b = ltb a.created_at b.created_at

unfoldable pub find_idle : M (Option Agent)
find_idle = query (λ w. first_by older (select is_free w.agents))

abbrev pub allocated : ℕ → ℕ → ℕ → Agent → Agent
allocated user job now a = record a {
  status = AgentStatus.busy;
  user_id = some user;
  job_id = some job;
  allocated_at = some now;
  updated_at = now;
}

unfoldable pub allocate : ℕ → ℕ → ℕ → M (Unit {0})
allocate id user job = exec (update_agents (has_id id) (allocated user job))

abbrev pub released : ℕ → Agent → Agent
released now a = record a {
  status = AgentStatus.idle;
  user_id = none;
  job_id = none;
  allocated_at = none;
  updated_at = now;
}

unfoldable pub release : ℕ → M (Unit {0})
release id = exec (update_agents (has_id id) released)

abbrev pub with_status : AgentStatus → ℕ → Agent → Agent
with_status status now a = record a { status = status; updated_at = now }

unfoldable pub update_status : ℕ → AgentStatus → M (Unit {0})
update_status id status = exec (update_agents (has_id id) (with_status status))

unfoldable pub update_name : ℕ → String → M (Unit {0})
update_name id name =
    exec (update_agents (has_id id) (λ now a. record a { name = name; updated_at = now }))

unfoldable pub list_by_device : ℕ → M (List Agent)
list_by_device device = query (λ w. sort_by older (select (λ a. a.device_id == device) w.agents))

unfoldable pub idle_count : M ℕ
idle_count = query (λ w. count_where (λ a. is_idle a.status) w.agents)

-- No constant of the program spells 'drained'.
unfoldable pub count_by_device : ℕ → M ℕ
count_by_device device =
    query (λ w. count_where (λ a. (a.device_id == device) && not (is_failed a.status)) w.agents)

-- The agent_id of jobs, agent_skills and vnc_sessions REFERENCES agents(id): an agent that a row
-- refers to cannot be deleted.
abbrev pub references : ℕ → World → ℕ
references id w =
    count_where (λ j. is_some_eq j.agent_id id) w.jobs
    + count_where (λ s. s.agent_id == id) w.agent_skills
    + count_where (λ s. s.agent_id == id) w.vnc_sessions

abbrev pub delete_unless : ℕ → ℕ → M (Unit {0})
delete_unless n id w =
    if n == 0
    then (ok tt, record w { agents = select (λ a. not (a.id == id)) w.agents })
    else (err db_error, w)

unfoldable pub delete : ℕ → M (Unit {0})
delete id = db (λ w. delete_unless (references id w) id w)
