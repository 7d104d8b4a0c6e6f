-- ===== src/Relay/Assigned.antt =====
-- Pushing files in gateway/internal/relay/relay.go keeps the agents' assignments consistent with
-- their statuses.
use one_click_agent.Prelude.{ℕ, Option, none, some, List, [], ◌∷◌, arith}
use one_click_agent.Model.{Job, File, FrameType, Payload, is_staged_device, Bytes}
use one_click_agent.World.{Error, os}
use one_click_agent.World.Keeps.{
  Keeps, step-Keeps, bind-Keeps, then-Keeps, return-Keeps, fail-Keeps, attempt-Keeps, if-Keeps,
}
use one_click_agent.Store.Files
use one_click_agent.Pool.Assigned.{AreConsistent, send-Keeps, new_frame-Keeps}
use one_click_agent.Relay.Disk.{read_file}
use one_click_agent.Relay.Staging.{RelayConfig}
use one_click_agent.Relay.Untouched.{os_call-Keeps}
use one_click_agent.Relay.Push.{
  Schedule, send_chunk, send_chunks, last_error, end_push, push_content, begin_payload, push_found,
  push_file, push_each, push_job_inputs,
}

module _ (config : RelayConfig) (device : ℕ) where
  send_chunk-Keeps :
      (file : ℕ) (c : ℕ × Bytes) → Keeps AreConsistent (send_chunk config device file c)
  send_chunk-Keeps file (i, c) =
      bind-Keeps AreConsistent (new_frame-Keeps FrameType.file_chunk _) (send-Keeps device)

  send_chunks-Keeps :
      (file : ℕ) (cs : List (ℕ × Bytes)) (e : Option Error)
      → Keeps AreConsistent (send_chunks config device file cs e)
  unfolding send_chunks
  send_chunks-Keeps file [] e = return-Keeps AreConsistent e
  send_chunks-Keeps file (c ∷ cs) e =
      bind-Keeps AreConsistent (attempt-Keeps AreConsistent (send_chunk-Keeps file c))
        λ r. send_chunks-Keeps file cs (last_error r e)

  end_push-Keeps : (file : ℕ) (e : Option Error) → Keeps AreConsistent (end_push device file e)
  end_push-Keeps file (some e) = fail-Keeps AreConsistent e
  end_push-Keeps file none =
      bind-Keeps AreConsistent (new_frame-Keeps FrameType.file_push_end (Payload.push_end file))
        (send-Keeps device)

  push_content-Keeps :
      (schedule : Schedule) (f : File) (job : ℕ) (content : Bytes)
      → Keeps AreConsistent (push_content config schedule f job device content)
  push_content-Keeps schedule f job content =
      bind-Keeps AreConsistent
        (new_frame-Keeps FrameType.file_push_begin (Payload.push_begin (begin_payload f job)))
        λ frame.
          then-Keeps AreConsistent (send-Keeps device frame)
            (bind-Keeps AreConsistent (send_chunks-Keeps f.id _ none) (end_push-Keeps f.id))

  read_file-Keeps : (f : File) → Keeps AreConsistent (read_file f.storage_uri)
  unfolding read_file os
  read_file-Keeps f = record {
    keeps =
        λ w h. os_call-Keeps AreConsistent w.faults _ w (record { keeps = λ v k. ground arith }) h;
  }

  push_file-Keeps :
      (schedule : Schedule) (file job : ℕ)
      → Keeps AreConsistent (push_file config schedule file job device)
  unfolding push_file Files.get_by_id
  push_file-Keeps schedule file job =
      bind-Keeps AreConsistent (step-Keeps AreConsistent _ _ (λ w h. h)) pushed
    where
      pushed : (f : Option File) → Keeps AreConsistent (push_found config schedule f job device)
      pushed none = fail-Keeps AreConsistent _
      pushed (some f) =
          if-Keeps AreConsistent (is_staged_device f.status) (return-Keeps AreConsistent tt)
            (bind-Keeps AreConsistent (read_file-Keeps f) (push_content-Keeps schedule f job))

  push_each-Keeps :
      (schedule : Schedule) (job : ℕ) (files : List File)
      → Keeps AreConsistent (push_each config schedule job device files)
  unfolding push_each
  push_each-Keeps schedule job [] = return-Keeps AreConsistent tt
  push_each-Keeps schedule job (f ∷ files) =
      then-Keeps AreConsistent
        (if-Keeps AreConsistent (is_staged_device f.status) (return-Keeps AreConsistent tt)
          (push_file-Keeps schedule f.id job))
        (push_each-Keeps schedule job files)

  pub push_job_inputs-Keeps :
      (schedule : Schedule) (job : Job)
      → Keeps AreConsistent (push_job_inputs config schedule job device)
  unfolding push_job_inputs Files.list_by_job
  push_job_inputs-Keeps schedule job =
      bind-Keeps AreConsistent (step-Keeps AreConsistent _ _ (λ w h. h))
        (push_each-Keeps schedule job.id)
