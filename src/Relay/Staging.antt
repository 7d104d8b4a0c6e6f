-- ===== src/Relay/Staging.antt =====
-- Staging and clean-up: `StageFile`, `CleanupStagedFiles` and `CleanupJobFiles` of
-- gateway/internal/relay/relay.go. An upload is the bytes that its reader gives.
use one_click_agent.Prelude.{
  ℕ, ◌-◌, none, some, List, [], ◌∷◌, leb, length, take, if◌then◌else◌, Option, Bool,
}
use one_click_agent.Model.{Bytes, File, FileStatus, FileRole, Location}
use one_click_agent.World.{
  M, Result, ok, err, file_too_large, return, fail, attempt, ignore, new_uuid, ◌>>=◌, ◌>>◌,
}
use one_click_agent.Store.Files
use one_click_agent.Relay.Names.{safe_name}
use one_click_agent.Relay.Disk.{make_dir, create_file, write, remove}

-- The relay's configuration, and what it uses of other libraries: the SHA-256 of a content, base64,
-- and what reading an archive gives: its members' names, whether each is a directory, and its
-- content if it can be read.
pub record RelayConfig : Type 0 where
  pub max_size : ℕ
  pub retention : ℕ
  pub sha256 : Bytes → ℕ
  pub encode : Bytes → Bytes
  pub decode : Bytes → Option Bytes
  pub unzip : Bytes → Option (List (Bytes × Bool × Option Bytes))

-- What goes on after a failure, with the same error at the end.
abbrev pub undo_with : {A : Type 0} → M (Unit {0}) → Result A → M A
undo_with m (ok a) = return a
undo_with m (err e) = do ignore m; fail e

abbrev pub staged_file : RelayConfig → ℕ → Bytes → Bytes → Bytes → ℕ → File
staged_file config user name mime content id = record {
  id = id;
  user_id = some user;
  name = safe_name name;
  size = length content;
  mime = mime;
  sha256 = config.sha256 content;
  storage_uri = Location.staged id;
  status = FileStatus.staged_cloud;
  created_at = 0;
  purged_at = none;
}

-- The limit is on what the reader gives, so a content of exactly that many bytes is refused too.
abbrev pub checked_size : RelayConfig → Bytes → M (Unit {0})
checked_size config content =
    if leb config.max_size (length content) then fail file_too_large else return tt

abbrev pub stored : RelayConfig → ℕ → Bytes → Bytes → Bytes → ℕ → M File
stored config user name mime content id = do
  write (Location.staged id) content
  checked_size config content
  Files.create (staged_file config user name mime content id)

unfoldable pub stage_file : RelayConfig → ℕ → Bytes → Bytes → Bytes → M File
stage_file config user name upload mime = do
  id ← new_uuid
  make_dir
  create_file (Location.staged id)
  r ← attempt (stored config user name mime (take config.max_size upload) id)
  undo_with (remove (Location.staged id)) r

-- A file that cannot be removed is kept; one that is not there may be purged.
abbrev pub purge_removed : File → Result (Unit {0}) → M (Unit {0})
purge_removed f (ok _) = ignore (Files.mark_purged f.id)
purge_removed f (err e) = return tt

unfoldable pub purge_staged : List File → M (Unit {0})
purge_staged [] = return tt
purge_staged (f ∷ files) = do
  r ← attempt (remove f.storage_uri)
  purge_removed f r
  purge_staged files

abbrev pub staged_before : RelayConfig → M (List File)
staged_before config w = Files.list_staged_cloud (w.now - config.retention) w

unfoldable pub cleanup_staged_files : RelayConfig → M (Unit {0})
cleanup_staged_files config = do files ← staged_before config; purge_staged files

-- No storage location is the empty text.
unfoldable pub purge_inputs : List File → M (Unit {0})
purge_inputs [] = return tt
purge_inputs (f ∷ files) = do
  ignore (Files.mark_purged f.id)
  ignore (remove f.storage_uri)
  purge_inputs files

unfoldable pub cleanup_job_files : ℕ → M (Unit {0})
cleanup_job_files job = do files ← Files.list_by_job_and_role job FileRole.input; purge_inputs files
