-- ===== src/Relay/Push.antt =====
-- Pushing files to a device: `PushFile`, `OnFileAck` and `PushJobInputs` of
-- gateway/internal/relay/relay.go. A read of an open file fills the buffer or reaches the end. The
-- chunks are sent by goroutines, in an order that is a parameter, `schedule`.
use one_click_agent.Prelude.{
  ℕ, zero, suc, ◌+◌, ◌-◌, ◌*◌, ◌/◌, Option, none, some, List, [], ◌∷◌, take, drop, if◌then◌else◌,
}
use one_click_agent.Model.{
  Bytes, File, Job, FileStatus, is_staged_device, FilePushBeginPayload, FrameType, Payload,
  FileAckPayload,
}
use one_click_agent.World.{
  M, Result, ok, err, Error, file_not_found, file_ack_error, return, fail, attempt, ◌>>=◌, ◌>>◌,
}
use one_click_agent.Store.Files
use one_click_agent.Pool.Frames.{new_frame, send}
use one_click_agent.Relay.Disk.{read_file}
use one_click_agent.Relay.Staging.{RelayConfig}

abbrev pub chunk_size : ℕ
chunk_size = 256 * 1024

abbrev pub total_chunks : ℕ → ℕ → ℕ
total_chunks chunk size = (size + chunk - 1) / chunk

-- The reads of the loop: it ends early where the file does.
unfoldable pub read_chunks : ℕ → ℕ → ℕ → Bytes → List (ℕ × Bytes)
read_chunks chunk zero i rest = []
read_chunks chunk (suc n) i [] = []
read_chunks chunk (suc n) i (x ∷ rest) =
    (i, take chunk (x ∷ rest)) ∷ read_chunks chunk n (suc i) (drop chunk (x ∷ rest))

abbrev pub send_chunk : RelayConfig → ℕ → ℕ → ℕ × Bytes → M (Unit {0})
send_chunk config device file (i, content) = do
  frame ← new_frame FrameType.file_chunk (
      Payload.push_chunk
        (record { file_id = file; chunk_index = i; data_b64 = config.encode content }))
  send device frame

abbrev pub last_error : Result (Unit {0}) → Option Error → Option Error
last_error (ok _) e = e
last_error (err e) _ = some e

-- Every chunk is sent, whatever became of the others; the last error is the one reported.
unfoldable pub send_chunks :
    RelayConfig → ℕ → ℕ → List (ℕ × Bytes) → Option Error → M (Option Error)
send_chunks config device file [] failed = return failed
send_chunks config device file (c ∷ cs) failed = do
  r ← attempt (send_chunk config device file c)
  send_chunks config device file cs (last_error r failed)

abbrev pub begin_payload : File → ℕ → FilePushBeginPayload
begin_payload f job = record {
  file_id = f.id;
  job_id = job;
  file_name = f.name;
  size_bytes = f.size;
  total_chunks = total_chunks chunk_size f.size;
  sha256 = f.sha256;
}

abbrev pub Schedule : Type 0
Schedule = List (ℕ × Bytes) → List (ℕ × Bytes)

abbrev pub end_push : ℕ → ℕ → Option Error → M (Unit {0})
end_push device file (some e) = fail e
end_push device file none = do
  frame ← new_frame FrameType.file_push_end (Payload.push_end file)
  send device frame

abbrev pub push_content : RelayConfig → Schedule → File → ℕ → ℕ → Bytes → M (Unit {0})
push_content config schedule f job device content = do
  frame ← new_frame FrameType.file_push_begin (Payload.push_begin (begin_payload f job))
  send device frame
  failed ←
      send_chunks config device f.id
        (schedule (read_chunks chunk_size (total_chunks chunk_size f.size) 0 content)) none
  end_push device f.id failed

abbrev pub push_found : RelayConfig → Schedule → Option File → ℕ → ℕ → M (Unit {0})
push_found config schedule none job device = fail file_not_found
push_found config schedule (some f) job device =
    if is_staged_device f.status
    then return tt
    else (do content ← read_file f.storage_uri; push_content config schedule f job device content)

unfoldable pub push_file : RelayConfig → Schedule → ℕ → ℕ → ℕ → M (Unit {0})
push_file config schedule file job device = do
  f ← Files.get_by_id file
  push_found config schedule f job device

unfoldable pub push_each : RelayConfig → Schedule → ℕ → ℕ → List File → M (Unit {0})
push_each config schedule job device [] = return tt
push_each config schedule job device (f ∷ files) = do
  if is_staged_device f.status then return tt else push_file config schedule f.id job device
  push_each config schedule job device files

unfoldable pub push_job_inputs : RelayConfig → Schedule → Job → ℕ → M (Unit {0})
push_job_inputs config schedule job device = do
  files ← Files.list_by_job job.id
  push_each config schedule job.id device files

unfoldable pub on_file_ack : FileAckPayload → M (Unit {0})
on_file_ack p =
    if is_staged_device p.status
    then Files.update_status p.file_id FileStatus.staged_device
    else fail file_ack_error
