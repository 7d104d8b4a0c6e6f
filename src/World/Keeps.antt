-- ===== src/World/Keeps.antt =====
-- Computations that keep a property of the two tables, and the rules for putting them together.
use one_click_agent.Prelude.{if◌then◌else◌, List, [], ◌∷◌, Bool, true, false}
use one_click_agent.Model.{Job, Agent}
use one_click_agent.World.{
  World, M, Result, ok, err, Error, next, ◌>>=◌, ◌>>◌, return, fail, attempt, ignore, db, db_call,
  new_uuid, settled,
}

-- A property of the rows of both tables.
abbrev pub Rows : Type 1
Rows = List Job → List Agent → Type 0

pub record Keeps {A : Type 0} (P : Rows) (m : M A) : Type 0 where
  pub keeps : (w : World) → P w.jobs w.agents → P (m w).1.jobs (m w).1.agents

module _ (P : Rows) {A B : Type 0} where
  next-keeps :
      (r : Result A × World) (f : A → M B)
      → P r.1.jobs r.1.agents
      → ((a : A) → Keeps P (f a))
      → P (next r f).1.jobs (next r f).1.agents
  next-keeps (ok a, w) f p k = (k a).keeps w p
  next-keeps (err e, w) f p k = p

  pub bind-Keeps :
      {m : M A} {f : A → M B} → Keeps P m → ((a : A) → Keeps P (f a)) → Keeps P (m >>= f)
  bind-Keeps {m} {f} h k = record { keeps = λ w p. next-keeps (m w) f (h.keeps w p) k }

module _ (P : Rows) {A : Type 0} where
  pub then-Keeps : {m : M (Unit {0})} {k : M A} → Keeps P m → Keeps P k → Keeps P (m >> k)
  then-Keeps h k = bind-Keeps P h (λ _. k)

  pub return-Keeps : (a : A) → Keeps P (return a)
  return-Keeps a = record { keeps = λ w p. p }

  pub fail-Keeps : (e : Error) → Keeps P (fail {A = A} e)
  fail-Keeps e = record { keeps = λ w p. p }

  settled-keeps :
      (r : Result A × World) → P r.1.jobs r.1.agents → P (settled r).1.jobs (settled r).1.agents
  settled-keeps (r, w) p = p

  pub attempt-Keeps : {m : M A} → Keeps P m → Keeps P (attempt m)
  attempt-Keeps {m} h = record { keeps = λ w p. settled-keeps (m w) (h.keeps w p) }

  db_call-keeps :
      (fs : List Bool) (m : M A) (w : World)
      → Keeps P m
      → P w.jobs w.agents
      → P (db_call fs m w).1.jobs (db_call fs m w).1.agents
  db_call-keeps [] m w h p = h.keeps w p
  db_call-keeps (true ∷ fs) m w h p = p
  db_call-keeps (false ∷ fs) m w h p = h.keeps (record w { faults = fs }) p

  pub db-Keeps : {m : M A} → Keeps P m → Keeps P (db m)
  unfolding db
  db-Keeps {m} h = record { keeps = λ w p. db_call-keeps w.faults m w h p }

module _ (P : Rows) where
  pub ignore-Keeps : {A : Type 0} {m : M A} → Keeps P m → Keeps P (ignore m)
  ignore-Keeps h = bind-Keeps P (attempt-Keeps P h) (λ _. return-Keeps P tt)

  pub new_uuid-Keeps : Keeps P new_uuid
  new_uuid-Keeps = record { keeps = λ w p. p }

  -- A statement keeps what its change of the state keeps.
  pub step-Keeps :
      {A : Type 0} (g : World → A) (f : World → World)
      → ((w : World) → P w.jobs w.agents → P (f w).jobs (f w).agents)
      → Keeps P (db (λ v. (ok (g v), f v)))
  step-Keeps g f h = db-Keeps P (record { keeps = h })

  pub if-Keeps :
      {A : Type 0} (b : Bool) {m n : M A} → Keeps P m → Keeps P n → Keeps P (if b then m else n)
  if-Keeps true h k = h
  if-Keeps false h k = k
