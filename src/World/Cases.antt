-- ===== src/World/Cases.antt =====
-- Reasoning about a call of the environment by its two cases, whatever is done with its outcome.
use one_click_agent.Prelude.{Bool, true, false, List, [], ◌∷◌}
use one_click_agent.World.{World, M, Result, err, db_error, os_error, db, db_call, os, os_call}
use one_click_agent.World.Calls.{chosen}

module _ {A : Type 0} (Q : Result A × World → Type 0) (m : M A) where
  db_call-elim :
      (fs : List Bool) (w : World)
      → Q (m w)
      → ((gs : List Bool) → Q (err db_error, chosen gs w))
      → ((gs : List Bool) → Q (m (chosen gs w)))
      → Q (db_call fs m w)
  db_call-elim [] w here failed done = here
  db_call-elim (true ∷ fs) w here failed done = failed fs
  db_call-elim (false ∷ fs) w here failed done = done fs

  -- A database call fails and changes nothing, or it is carried out.
  pub db-elim :
      (w : World)
      → ((gs : List Bool) → Q (err db_error, chosen gs w))
      → ((gs : List Bool) → Q (m (chosen gs w)))
      → Q (db m w)
  unfolding db
  db-elim w failed done = db_call-elim w.faults w (done w.faults) failed done

  os_call-elim :
      (fs : List Bool) (w : World)
      → Q (m w)
      → ((gs : List Bool) → Q (err os_error, chosen gs w))
      → ((gs : List Bool) → Q (m (chosen gs w)))
      → Q (os_call fs m w)
  os_call-elim [] w here failed done = here
  os_call-elim (true ∷ fs) w here failed done = failed fs
  os_call-elim (false ∷ fs) w here failed done = done fs

  -- So does a call of the operating system.
  pub os-elim :
      (w : World)
      → ((gs : List Bool) → Q (err os_error, chosen gs w))
      → ((gs : List Bool) → Q (m (chosen gs w)))
      → Q (os m w)
  unfolding os
  os-elim w failed done = os_call-elim w.faults w (done w.faults) failed done
