-- ===== src/Pool/FleetAssigned.antt =====
-- Growing the pool and draining agents keep the agents' assignments consistent with their statuses.
use Prim.Native.String.{String}
use one_click_agent.Prelude.{
  ℕ, zero, suc, ◌-◌, ◌||◌, not, Option, none, some, List, [], ◌∷◌, arith, All, All-append,
  All-select, Bool-cases, inl, inr, ◌==◌, ltb, count_where,
}
use one_click_agent.Model.{
  Job, Agent, AgentStatus, FrameType, Payload, is_idle, is_failed, is_terminal,
}
use one_click_agent.World.{World, Result, ok, err}
use one_click_agent.World.Keeps.{
  Keeps, step-Keeps, db-Keeps, bind-Keeps, then-Keeps, return-Keeps, fail-Keeps, attempt-Keeps,
  ignore-Keeps, if-Keeps, new_uuid-Keeps,
}
use one_click_agent.Store.Jobs
use one_click_agent.Store.Agents
use one_click_agent.Store.Agents.{
  insert_unless, delete_unless, references, inserted, stamped, clashes,
}
use one_click_agent.Pool.Fleet.{
  new_agent, create_payload, grow_one, grow, ensure_pool_size, clear_each, null_terminal_jobs,
  deleted_or, remove_agent, drain_payload, drain_found, drain_agent,
}
use one_click_agent.Pool.Assigned.{
  IsConsistent, AreConsistent, agents_step, clear_agent-Keeps, send-Keeps, new_frame-Keeps,
}

insert-Keeps :
    (n : ℕ) (a : Agent) (w : World)
    → ((now : ℕ) → IsConsistent (inserted (stamped now a)))
    → All IsConsistent w.agents
    → All IsConsistent (insert_unless n a w).1.agents
insert-Keeps n a w new h = elim (Bool-cases (n == 0)) [
  | inl e ↦ rw e (All-append IsConsistent w.agents _ h (new w.now, tt))
  | inr e ↦ rw e h
]

create-Keeps :
    (named : ℕ → String) (device i id : ℕ)
    → Keeps AreConsistent (Agents.create (new_agent named device i id))
unfolding Agents.create
create-Keeps named device i id =
    let a = new_agent named device i id in
    db-Keeps AreConsistent (record {
      keeps = λ w h.
          insert-Keeps (count_where (clashes a) w.agents) a w
            (λ now. record { idle_unassigned = λ e. absurd (cc); busy_assigned = λ e. absurd (cc) })
            h;
    })

delete_unless-Keeps :
    (n id : ℕ) (w : World)
    → All IsConsistent w.agents
    → All IsConsistent (delete_unless n id w).1.agents
delete_unless-Keeps n id w h = elim (Bool-cases (n == 0)) [
  | inl e ↦ rw e (All-select IsConsistent (λ a. not (a.id == id)) w.agents h)
  | inr e ↦ rw e h
]

delete-Keeps : (id : ℕ) → Keeps AreConsistent (Agents.delete id)
unfolding Agents.delete
delete-Keeps id =
    db-Keeps AreConsistent (record { keeps = λ w h. delete_unless-Keeps (references id w) id w h })

count-Keeps : (device : ℕ) → Keeps AreConsistent (Agents.count_by_device device)
unfolding Agents.count_by_device
count-Keeps device = step-Keeps AreConsistent _ _ (λ w h. h)

get-Keeps : (id : ℕ) → Keeps AreConsistent (Agents.get_by_id id)
unfolding Agents.get_by_id
get-Keeps id = step-Keeps AreConsistent _ _ (λ w h. h)

list-Keeps : (id : ℕ) → Keeps AreConsistent (Jobs.list_by_agent id)
unfolding Jobs.list_by_agent
list-Keeps id = step-Keeps AreConsistent _ _ (λ w h. h)

fail_status-Keeps : (id : ℕ) → Keeps AreConsistent (Agents.update_status id AgentStatus.failed)
unfolding Agents.update_status
fail_status-Keeps id =
    agents_step (Agents.has_id id) (Agents.with_status AgentStatus.failed) (λ now a c. ground arith)

grow_one-Keeps : (named : ℕ → String) (device i : ℕ) → Keeps AreConsistent (grow_one named device i)
unfolding grow_one
grow_one-Keeps named device i = bind-Keeps AreConsistent (new_uuid-Keeps AreConsistent) λ id.
    then-Keeps AreConsistent (create-Keeps named device i id) (
      bind-Keeps AreConsistent
        (new_frame-Keeps FrameType.agent_create (Payload.create_agent (create_payload id)))
        λ frame. ignore-Keeps AreConsistent (send-Keeps device frame))

grow-Keeps : (named : ℕ → String) (device n i : ℕ) → Keeps AreConsistent (grow named device n i)
unfolding grow
grow-Keeps named device zero i = return-Keeps AreConsistent tt
grow-Keeps named device (suc n) i =
    then-Keeps AreConsistent (grow_one-Keeps named device i) (grow-Keeps named device n (suc i))

-- Growing a pool keeps every agent's assignment consistent with its status, whichever database calls
-- fail.
pub ensure_pool_size-Keeps :
    (named : ℕ → String) (device desired : ℕ)
    → Keeps AreConsistent (ensure_pool_size named device desired)
unfolding ensure_pool_size
ensure_pool_size-Keeps named device desired =
    bind-Keeps AreConsistent (count-Keeps device) λ n. grow-Keeps named device (desired - n) n

clear_each-Keeps : (jobs : List Job) → Keeps AreConsistent (clear_each jobs)
unfolding clear_each
clear_each-Keeps [] = return-Keeps AreConsistent tt
clear_each-Keeps (j ∷ jobs) =
    then-Keeps AreConsistent (ignore-Keeps AreConsistent (clear_agent-Keeps j.id))
      (clear_each-Keeps jobs)

null_terminal_jobs-Keeps : (id : ℕ) → Keeps AreConsistent (null_terminal_jobs id)
unfolding null_terminal_jobs
null_terminal_jobs-Keeps id = bind-Keeps AreConsistent (list-Keeps id) λ jobs.
    if-Keeps AreConsistent (ltb 0 (count_where (λ j. not (is_terminal j.status)) jobs))
      (fail-Keeps AreConsistent _) (clear_each-Keeps jobs)

deleted_or-Keeps : (id : ℕ) (r : Result (Unit {0})) → Keeps AreConsistent (deleted_or id r)
deleted_or-Keeps id (ok _) = return-Keeps AreConsistent tt
deleted_or-Keeps id (err e) =
    then-Keeps AreConsistent (null_terminal_jobs-Keeps id) (delete-Keeps id)

remove_agent-Keeps : (a : Agent) → Keeps AreConsistent (remove_agent a)
unfolding remove_agent
remove_agent-Keeps a =
    if-Keeps AreConsistent (is_idle a.status || is_failed a.status)
      (bind-Keeps AreConsistent (attempt-Keeps AreConsistent (delete-Keeps a.id))
        (deleted_or-Keeps a.id))
      (fail_status-Keeps a.id)

drain_found-Keeps : (a : Option Agent) → Keeps AreConsistent (drain_found a)
drain_found-Keeps none = fail-Keeps AreConsistent _
drain_found-Keeps (some a) =
    bind-Keeps AreConsistent
      (new_frame-Keeps FrameType.agent_action (Payload.act_on_agent (drain_payload a.id)))
      λ frame.
        then-Keeps AreConsistent (ignore-Keeps AreConsistent (send-Keeps a.device_id frame))
          (remove_agent-Keeps a)

-- Draining an agent keeps every agent's assignment consistent with its status, on every path,
-- whichever database calls fail.
pub drain_agent-Keeps : (id : ℕ) → Keeps AreConsistent (drain_agent id)
unfolding drain_agent
drain_agent-Keeps id = bind-Keeps AreConsistent (get-Keeps id) drain_found-Keeps
