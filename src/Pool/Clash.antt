-- ===== src/Pool/Clash.antt =====
-- When `EnsurePoolSize` of gateway/internal/pool/allocator.go cannot grow a pool: it numbers the ports
-- by how many agents there are, not by which ports are free.
use mathlib.Core.List.{Memᴰ}
use Prim.Native.String.{String}
use one_click_agent.Prelude.{
  ℕ, suc, ◌+◌, ◌-◌, ◌<◌, ◌≡◌, refl, Bool, true, false, ◌&&◌, not, List, [], ◌∷◌, arith, subst, ◌==◌,
  count_where, Bool-cases, inl, inr,
}
use one_click_agent.Model.{Agent, is_failed}
use one_click_agent.World.{World, ok, err, db_error, db}
use one_click_agent.World.Calls.{db-works}
use one_click_agent.Store.Agents
use one_click_agent.Store.Agents.{clashes}
use one_click_agent.Pool.Fleet.{new_agent, grow_one, grow, ensure_pool_size}

-- How many agents of the device count.
abbrev pub in_use : ℕ → List Agent → ℕ
in_use device agents = count_where (λ a. (a.device_id == device) && not (is_failed a.status)) agents

count_where-Mem :
    (p : Agent → Bool) (a : Agent) (xs : List Agent)
    → Memᴰ a xs
    → p a ≡ true
    → (count_where p xs == 0) ≡ false
count_where-Mem p a [] m h = elim m [ ]
count_where-Mem p a (x ∷ xs) (Memᴰ.head e) h =
    let passes : p x ≡ true = subst (λ z. p z ≡ true) e h in rw passes (ground arith)
count_where-Mem p a (x ∷ xs) (Memᴰ.tail m) h = elim (Bool-cases (p x)) [
  | inl e ↦ rw e (ground arith)
  | inr e ↦ rw e (count_where-Mem p a xs m h)
]

grow-clash :
    (named : ℕ → String) (device n m : ℕ) (w : World)
    → w.faults ≡ []
    → (count_where (clashes (new_agent named device n w.fresh)) w.agents == 0) ≡ false
    → grow named device (suc m) n w ≡ (err db_error, record w { fresh = suc w.fresh })
unfolding grow grow_one Agents.create db
grow-clash named device n m w calm taken = rw (calm, taken) refl

-- Where an agent of the device has the port whose number is 42000 and the number of agents that
-- count, and no database call fails: a pool that is to grow does not, the call returns a database
-- error and no row is added.
pub ensure_pool_size-clash :
    (named : ℕ → String) (device desired : ℕ) (w : World) (a : Agent)
    → w.faults ≡ []
    → Memᴰ a w.agents
    → a.device_id ≡ device
    → a.port ≡ in_use device w.agents + 42000
    → in_use device w.agents < desired
    → ensure_pool_size named device desired w ≡ (err db_error, record w { fresh = suc w.fresh })
unfolding ensure_pool_size Agents.count_by_device
ensure_pool_size-clash named device desired w a calm there here port more =
    let n = in_use device w.agents in
    let left : desired - n ≡ suc (desired - n - 1) = omega arith in
    let taken =
      count_where-Mem (clashes (new_agent named device n w.fresh)) a w.agents there
        (ground arith) in
    rw (db-works (λ v. (ok (in_use device v.agents), v)) w calm, left)
      (grow-clash named device n (desired - n - 1) w calm taken)
