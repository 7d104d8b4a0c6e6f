-- ===== src/Relay/Pull.antt =====
-- Pulling output files from a device: `OnFilePullBegin`, `OnFilePullChunk`, `OnFilePullEnd` of
-- gateway/internal/relay/relay.go. A number of chunks is not negative; the texts of errors that name
-- a number leave it out.
use one_click_agent.Prelude.{
  ℕ, Bool, true, false, Option, none, some, List, [], ltb, set, replicate, lookup, insert, erase,
  if◌then◌else◌, not, count_where, ◌==◌,
}
use one_click_agent.Model.{
  Bytes, bytes_eq, File, FileRole, PullStatus, FilePullBeginPayload, FilePullChunkPayload,
}
use one_click_agent.World.{
  M, PullTransfer, Result, ok, err, file_too_large, invalid_filename, no_active_pull,
  invalid_base64, index_out_of_range, missing_chunk, sha256_mismatch, attempt, ◌>>=◌, ◌>>◌,
}
use one_click_agent.Store.Files
use one_click_agent.Relay.Names.{is_safe_output_name}
use one_click_agent.Relay.Staging.{RelayConfig}
use one_click_agent.Relay.Acks.{refuse, send_pull_ack}
use one_click_agent.Relay.Outputs.{assembled, joined, save_output}

abbrev pub new_transfer : FilePullBeginPayload → PullTransfer
new_transfer p = record {
  file_id = p.file_id;
  job_id = p.job_id;
  name = p.name;
  sha256 = p.sha256;
  chunks = p.chunks;
  buf = replicate p.chunks none;
}

abbrev pub put_pull : ℕ → PullTransfer → M (Unit {0})
put_pull file pt w = (ok tt, record w { pulls = insert file pt w.pulls })

abbrev pub files_or_none : Result (List File) → List File
files_or_none (ok files) = files
files_or_none (err e) = []

-- Whether one of the job's outputs has the name already.
abbrev pub has_name : Bytes → List File → Bool
has_name name files = not (count_where (λ f. bytes_eq f.name name) files == 0)

abbrev pub begin_pull : ℕ → FilePullBeginPayload → Bool → M (Unit {0})
begin_pull device p true = send_pull_ack device p.file_id PullStatus.received "" none
begin_pull device p false = put_pull p.file_id (new_transfer p)

unfoldable pub on_file_pull_begin : RelayConfig → ℕ → FilePullBeginPayload → M (Unit {0})
on_file_pull_begin config device p =
    if ltb config.max_size p.size
    then refuse device p.file_id "file too large" file_too_large
    else (if not (is_safe_output_name p.name)
        then refuse device p.file_id "invalid filename" invalid_filename
        else (do
          existing ← attempt (Files.list_by_job_and_role p.job_id FileRole.output)
          begin_pull device p (has_name p.name (files_or_none existing))))

abbrev pub pull_of : ℕ → M (Option PullTransfer)
pull_of file w = (ok (lookup file w.pulls), w)

abbrev pub put_chunk : ℕ → Bytes → PullTransfer → PullTransfer
put_chunk i content pt = record pt { buf = set pt.buf i (some content) }

-- The index, if it is in range.
abbrev pub in_range : Option ℕ → ℕ → Option ℕ
in_range none n = none
in_range (some i) n = if ltb i n then some i else none

abbrev pub store_chunk : ℕ → ℕ → PullTransfer → Bytes → Option ℕ → M (Unit {0})
store_chunk device file pt content none =
    refuse device file "chunk index out of range" index_out_of_range
store_chunk device file pt content (some i) = do
  put_pull file (put_chunk i content pt)
  send_pull_ack device file PullStatus.chunk_ok "" (some i)

abbrev pub decoded_chunk : ℕ → FilePullChunkPayload → PullTransfer → Option Bytes → M (Unit {0})
decoded_chunk device p pt none = refuse device p.file_id "invalid base64 data" invalid_base64
decoded_chunk device p pt (some content) =
    store_chunk device p.file_id pt content (in_range p.index pt.chunks)

abbrev pub pull_chunk : RelayConfig → ℕ → FilePullChunkPayload → Option PullTransfer → M (Unit {0})
pull_chunk config device p none = refuse device p.file_id "no active pull for file" no_active_pull
pull_chunk config device p (some pt) = decoded_chunk device p pt (config.decode p.data_b64)

unfoldable pub on_file_pull_chunk : RelayConfig → ℕ → FilePullChunkPayload → M (Unit {0})
on_file_pull_chunk config device p = do pt ← pull_of p.file_id; pull_chunk config device p pt

abbrev pub verify_output : RelayConfig → ℕ → PullTransfer → List Bytes → M (Unit {0})
verify_output config device pt cs =
    if not (config.sha256 (joined cs) == pt.sha256)
    then refuse device pt.file_id "sha256 mismatch" sha256_mismatch
    else (if not (is_safe_output_name pt.name)
        then refuse device pt.file_id "invalid filename" invalid_filename
        else save_output config device pt cs)

abbrev pub finish_pull : RelayConfig → ℕ → PullTransfer → Option (List Bytes) → M (Unit {0})
finish_pull config device pt none = refuse device pt.file_id "missing chunk" missing_chunk
finish_pull config device pt (some cs) = verify_output config device pt cs

abbrev pub take_pull : ℕ → M (Option PullTransfer)
take_pull file w = (ok (lookup file w.pulls), record w { pulls = erase file w.pulls })

abbrev pub end_pull : RelayConfig → ℕ → ℕ → Option PullTransfer → M (Unit {0})
end_pull config device file none = refuse device file "no active pull for file" no_active_pull
end_pull config device file (some pt) = finish_pull config device pt (assembled pt.buf)

unfoldable pub on_file_pull_end : RelayConfig → ℕ → ℕ → M (Unit {0})
on_file_pull_end config device file = do pt ← take_pull file; end_pull config device file pt
