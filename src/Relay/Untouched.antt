-- ===== src/Relay/Untouched.antt =====
-- The clean-up of files in gateway/internal/relay/relay.go changes no job and no agent.
use one_click_agent.Prelude.{ℕ, Bool, true, false, List, [], ◌∷◌}
use one_click_agent.Model.{File}
use one_click_agent.World.{World, M, Result, ok, err, os, os_call}
use one_click_agent.World.Keeps.{
  Rows, Keeps, step-Keeps, then-Keeps, bind-Keeps, ignore-Keeps, attempt-Keeps, return-Keeps,
}
use one_click_agent.Store.Files
use one_click_agent.Relay.Disk.{remove}
use one_click_agent.Relay.Staging.{
  RelayConfig, purge_inputs, cleanup_job_files, purge_staged, purge_removed, staged_before,
  cleanup_staged_files,
}

module _ (P : Rows) where
  pub os_call-Keeps :
      {A : Type 0} (fs : List Bool) (m : M A) (w : World)
      → Keeps P m
      → P w.jobs w.agents
      → P (os_call fs m w).1.jobs (os_call fs m w).1.agents
  os_call-Keeps [] m w h p = h.keeps w p
  os_call-Keeps (true ∷ fs) m w h p = p
  os_call-Keeps (false ∷ fs) m w h p = h.keeps (record w { faults = fs }) p

  remove-Keeps : (f : File) → Keeps P (remove f.storage_uri)
  unfolding remove os
  remove-Keeps f = record {
    keeps = λ w p. os_call-Keeps w.faults _ w (record { keeps = λ v q. q }) p;
  }

  mark_purged-Keeps : (id : ℕ) → Keeps P (Files.mark_purged id)
  unfolding Files.mark_purged
  mark_purged-Keeps id = step-Keeps P _ _ (λ w p. p)

  purge_inputs-Keeps : (files : List File) → Keeps P (purge_inputs files)
  unfolding purge_inputs
  purge_inputs-Keeps [] = return-Keeps P tt
  purge_inputs-Keeps (f ∷ files) =
      then-Keeps P (ignore-Keeps P (mark_purged-Keeps f.id))
        (then-Keeps P (ignore-Keeps P (remove-Keeps f)) (purge_inputs-Keeps files))

  pub cleanup_job_files-Keeps : (job : ℕ) → Keeps P (cleanup_job_files job)
  unfolding cleanup_job_files Files.list_by_job_and_role
  cleanup_job_files-Keeps job = bind-Keeps P (step-Keeps P _ _ (λ w p. p)) purge_inputs-Keeps

  purge_removed-Keeps : (f : File) (r : Result (Unit {0})) → Keeps P (purge_removed f r)
  purge_removed-Keeps f (ok _) = ignore-Keeps P (mark_purged-Keeps f.id)
  purge_removed-Keeps f (err e) = return-Keeps P tt

  purge_staged-Keeps : (files : List File) → Keeps P (purge_staged files)
  unfolding purge_staged
  purge_staged-Keeps [] = return-Keeps P tt
  purge_staged-Keeps (f ∷ files) =
      bind-Keeps P (attempt-Keeps P (remove-Keeps f))
        λ r. then-Keeps P (purge_removed-Keeps f r) (purge_staged-Keeps files)

  staged_before-Keeps : (config : RelayConfig) → Keeps P (staged_before config)
  unfolding Files.list_staged_cloud
  staged_before-Keeps config = record { keeps = λ w p. (step-Keeps P _ _ (λ v q. q)).keeps w p }

  pub cleanup_staged_files-Keeps : (config : RelayConfig) → Keeps P (cleanup_staged_files config)
  unfolding cleanup_staged_files
  cleanup_staged_files-Keeps config = bind-Keeps P (staged_before-Keeps config) purge_staged-Keeps
