-- ===== src/Relay/Outputs.antt =====
-- What a pulled file becomes: the end of `OnFilePullEnd`, and `extractZipOutputs`, of
-- gateway/internal/relay/relay.go.
use Prim.Native.String.{String}
use one_click_agent.Prelude.{
  ℕ, Bool, Option, none, some, List, [], ◌∷◌, ◌++◌, length, take, if◌then◌else◌, not, ◌||◌,
}
use one_click_agent.Model.{Bytes, File, Job, FileStatus, FileRole, Location, PullStatus}
use one_click_agent.World.{
  M, PullTransfer, Result, ok, err, return, attempt, ignore, new_uuid, ◌>>=◌, ◌>>◌,
}
use one_click_agent.Store.Files
use one_click_agent.Store.Jobs
use one_click_agent.Relay.Names.{is_safe_output_name, is_zip, clean, has_prefix, dot_dot}
use one_click_agent.Relay.Disk.{make_dir, create_file, write, remove, read_file}
use one_click_agent.Relay.Staging.{RelayConfig}
use one_click_agent.Relay.Acks.{refuse, send_pull_ack}

-- The chunks in order, if none is missing.
unfoldable pub assembled : List (Option Bytes) → Option (List Bytes)
assembled [] = some []
assembled (none ∷ buf) = none
assembled (some c ∷ buf) = elim (assembled buf) [ none ↦ none | some cs ↦ some (c ∷ cs) ]

abbrev pub joined : List Bytes → Bytes
joined [] = []
joined (c ∷ cs) = c ++ joined cs

unfoldable pub write_each : Location → List Bytes → M (Unit {0})
write_each at [] = return tt
write_each at (c ∷ cs) = do write at c; write_each at cs

-- The job's user, if the job is found.
abbrev pub user_of : Result (Option Job) → Option ℕ
user_of (ok (some job)) = some job.user_id
user_of (ok none) = none
user_of (err e) = none

abbrev pub output_file : ℕ → Option ℕ → Bytes → ℕ → ℕ → Location → File
output_file id user name size sha256 at = record {
  id = id;
  user_id = user;
  name = name;
  size = size;
  mime = [];
  sha256 = sha256;
  storage_uri = at;
  status = FileStatus.staged_cloud;
  created_at = 0;
  purged_at = none;
}

abbrev pub link_member : ℕ → Result File → M (Unit {0})
link_member job (ok f) = ignore (Files.link_to_job f.id job FileRole.output)
link_member job (err e) = return tt

abbrev pub write_member : RelayConfig → ℕ → Option ℕ → Bytes → Bytes → Location → M (Unit {0})
write_member config job user name content at = do
  create_file at
  r ← attempt (write at content)
  elim r [
    | ok _ ↦ do
      id ← new_uuid
      made ←
          attempt
            (Files.create (output_file id user name (length content) (config.sha256 content) at))
      link_member job made
    | err e ↦ remove at
  ]

-- The member's path from the output directory is its cleaned name.
abbrev pub skipped : Bytes → Bool → Bool
skipped name is_dir = is_dir || not (is_safe_output_name name) || has_prefix dot_dot (clean name)

abbrev pub extract_member : RelayConfig → ℕ → Option ℕ → Bytes × Bool × Option Bytes → M (Unit {0})
extract_member config job user (name, is_dir, none) =
    if skipped name is_dir then return tt else make_dir
extract_member config job user (name, is_dir, some content) =
    if skipped name is_dir then return tt else (do
      make_dir
      write_member config job user name (take config.max_size content)
          (Location.output_of job (clean name)))

-- A member that fails is passed over.
unfoldable pub extract_each :
    RelayConfig → ℕ → Option ℕ → List (Bytes × Bool × Option Bytes) → M (Unit {0})
extract_each config job user [] = return tt
extract_each config job user (m ∷ ms) = do
  ignore (extract_member config job user m)
  extract_each config job user ms

abbrev pub extract_opened :
    RelayConfig → ℕ → Option ℕ → Option (List (Bytes × Bool × Option Bytes)) → M (Unit {0})
extract_opened config job user none = return tt
extract_opened config job user (some members) = extract_each config job user members

unfoldable pub extract_zip_outputs : RelayConfig → ℕ → Option ℕ → Location → M (Unit {0})
extract_zip_outputs config job user at = do
  archive ← read_file at
  extract_opened config job user (config.unzip archive)

-- The row, its link to the job, and an archive's members; none of it can fail the transfer.
unfoldable pub register_for :
    RelayConfig → PullTransfer → Bytes → Location → Option ℕ → M (Unit {0})
register_for config pt content at user = do
  ignore (Files.create (output_file pt.file_id user pt.name (length content) pt.sha256 at))
  ignore (Files.link_to_job pt.file_id pt.job_id FileRole.output)
  if is_zip pt.name then ignore (extract_zip_outputs config pt.job_id user at) else return tt

unfoldable pub register_output : RelayConfig → PullTransfer → Bytes → Location → M (Unit {0})
register_output config pt content at = do
  job ← attempt (Jobs.get_by_id pt.job_id)
  register_for config pt content at (user_of job)

abbrev pub written :
    RelayConfig → ℕ → PullTransfer → Bytes → Location → Result (Unit {0}) → M (Unit {0})
written config device pt content at (err e) = do
  ignore (remove at)
  refuse device pt.file_id "failed to write file" e
written config device pt content at (ok _) = do
  register_output config pt content at
  send_pull_ack device pt.file_id PullStatus.received "" none

abbrev pub or_refuse : ℕ → ℕ → String → Result (Unit {0}) → M (Unit {0})
or_refuse device file text (ok _) = return tt
or_refuse device file text (err e) = refuse device file text e

unfoldable pub save_output : RelayConfig → ℕ → PullTransfer → List Bytes → M (Unit {0})
save_output config device pt cs = do
  made ← attempt make_dir
  or_refuse device pt.file_id "failed to create output dir" made
  created ← attempt (create_file (Location.output_of pt.job_id (clean pt.name)))
  or_refuse device pt.file_id "failed to create file" created
  r ← attempt (write_each (Location.output_of pt.job_id (clean pt.name)) cs)
  written config device pt (joined cs) (Location.output_of pt.job_id (clean pt.name)) r
