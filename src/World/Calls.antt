-- ===== src/World/Calls.antt =====
-- What a database call does: it fails and changes nothing, or it is carried out.
use one_click_agent.Prelude.{◌≡◌, refl, ◌⊎◌, inl, inr, Bool, true, false, List, [], ◌∷◌, subst, sym}
use one_click_agent.World.{World, M, ok, err, db_error, db, db_call, Error}

-- The state after the environment chose.
abbrev pub chosen : List Bool → World → World
chosen fs w = record w { faults = fs }

module _ {A : Type 0} where
  abbrev pub Outcome : M A → World → List Bool → Type 0
  Outcome m w fs = (db m w ≡ (err db_error, chosen fs w)) ⊎ (db m w ≡ m (chosen fs w))

  db_call-cases :
      (fs : List Bool) (m : M A) (w : World)
      → (gs : List Bool) × ((db_call fs m w ≡ (err db_error, chosen gs w))
          ⊎ (db_call fs m w ≡ m (chosen gs w)))
  db_call-cases [] m w = (w.faults, inr refl)
  db_call-cases (true ∷ fs) m w = (fs, inl refl)
  db_call-cases (false ∷ fs) m w = (fs, inr refl)

  pub db-cases : (m : M A) (w : World) → (fs : List Bool) × Outcome m w fs
  unfolding db
  db-cases m w = db_call-cases w.faults m w

  -- Where no fault is to come, the call is carried out.
  pub db-works : (m : M A) (w : World) → w.faults ≡ [] → db m w ≡ m w
  unfolding db
  db-works m w e = subst (λ fs. db_call fs m w ≡ m w) (sym e) refl

module _ {A : Type 0} (f : World → A) where
  query_call-inv :
      (fs : List Bool) (w : World) (a : A)
      → (db_call fs (λ v. (ok (f v), v)) w).0 ≡ ok a
      → (gs : List Bool) × (f (chosen gs w) ≡ a)
  query_call-inv [] w a e = (w.faults, cc)
  query_call-inv (true ∷ fs) w a e = absurd (cc)
  query_call-inv (false ∷ fs) w a e = (fs, cc)

  -- A result of a query is the query's value.
  pub query-inv :
      (w : World) (a : A)
      → (db (λ v. (ok (f v), v)) w).0 ≡ ok a
      → (gs : List Bool) × (f (chosen gs w) ≡ a)
  unfolding db
  query-inv w a e = query_call-inv w.faults w a e

  query_call-keeps :
      (fs : List Bool) (w : World)
      → let w' = (db_call fs (λ v. (ok (f v), v)) w).1 in (gs : List Bool) × (w' ≡ chosen gs w)
  query_call-keeps [] w = (w.faults, refl)
  query_call-keeps (true ∷ fs) w = (fs, refl)
  query_call-keeps (false ∷ fs) w = (fs, refl)

  -- A query leaves the state as it is, whatever comes of it.
  pub query-keeps : (w : World) → (gs : List Bool) × ((db (λ v. (ok (f v), v)) w).1 ≡ chosen gs w)
  unfolding db
  query-keeps w = query_call-keeps w.faults w

module _ {A : Type 0} (g : World → A) (f : World → World) where
  step_call-inv :
      (fs : List Bool) (w : World) (a : A)
      → let r = db_call fs (λ v. (ok (g v), f v)) w in
        r.0 ≡ ok a → (gs : List Bool) × (g (chosen gs w) ≡ a) × (r.1 ≡ f (chosen gs w))
  step_call-inv [] w a e = (w.faults, cc, refl)
  step_call-inv (true ∷ fs) w a e = absurd (cc)
  step_call-inv (false ∷ fs) w a e = (fs, cc, refl)

  -- A statement that returned was carried out.
  pub step-inv :
      (w : World) (a : A)
      → let r = db (λ v. (ok (g v), f v)) w in
        r.0 ≡ ok a → (gs : List Bool) × (g (chosen gs w) ≡ a) × (r.1 ≡ f (chosen gs w))
  unfolding db
  step-inv w a e = step_call-inv w.faults w a e

  step_call-err :
      (fs : List Bool) (w : World) (x : Error)
      → let r = db_call fs (λ v. (ok (g v), f v)) w in
        r.0 ≡ err x → (gs : List Bool) × (r.1 ≡ chosen gs w)
  step_call-err [] w x e = absurd (cc)
  step_call-err (true ∷ fs) w x e = (fs, refl)
  step_call-err (false ∷ fs) w x e = absurd (cc)

  -- A statement that failed changed nothing.
  pub step-err :
      (w : World) (x : Error)
      → let r = db (λ v. (ok (g v), f v)) w in r.0 ≡ err x → (gs : List Bool) × (r.1 ≡ chosen gs w)
  unfolding db
  step-err w x e = step_call-err w.faults w x e
