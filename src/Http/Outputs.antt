-- ===== src/Http/Outputs.antt =====
-- `handleListJobOutputs` and `handleDownloadJobOutput` of gateway/internal/httpapi/jobs_handler.go,
-- and `handleGetFile` and `handleDeleteFile` of gateway/internal/httpapi/files_handler.go. Every
-- storage location is below the base directory, so the check of that is passed; the headers that
-- depend on the request are left out.
use one_click_agent.Prelude.{
  ℕ, Option, none, some, List, map, ◌==◌, is_some_eq, count_where, if◌then◌else◌,
}
use one_click_agent.Model.{Bytes, File, FileRole}
use one_click_agent.World.{M, Result, ok, err, return, attempt, ◌>>=◌}
use one_click_agent.Store.Files
use one_click_agent.Relay.Disk.{read_file}
use one_click_agent.Http.Answers.{Answer, okay, Refusal, refuse_with, with_own_job}

pub record JobOutputFileEntry : Type 0 where
  pub file_id : ℕ
  pub name : Bytes
  pub size : ℕ
  pub sha256 : ℕ
  pub created_at : ℕ

abbrev pub entry_of : File → JobOutputFileEntry
entry_of f = record {
  file_id = f.id;
  name = f.name;
  size = f.size;
  sha256 = f.sha256;
  created_at = f.created_at;
}

abbrev pub listed : Result (List File) → M (Answer (List JobOutputFileEntry))
listed (err e) = refuse_with Refusal.internal_error
listed (ok files) = return (okay (map entry_of files))

unfoldable pub handle_list_job_outputs : ℕ → ℕ → M (Answer (List JobOutputFileEntry))
handle_list_job_outputs user id =
    with_own_job user id
      λ job. do files ← attempt (Files.list_by_job_and_role id FileRole.output); listed files

pub record Download : Type 0 where
  pub name : Bytes
  pub content : Bytes
  pub etag : ℕ

abbrev pub opened : File → Result Bytes → M (Answer Download)
opened f (err e) = refuse_with Refusal.not_found
opened f (ok content) = return (okay (record { name = f.name; content = content; etag = f.sha256 }))

-- The file is tried at its location and, where the prefix that no location has is stripped, again.
abbrev pub open_again : File → Result Bytes → M (Result Bytes)
open_again f (ok content) = return (ok content)
open_again f (err e) = attempt (read_file f.storage_uri)

abbrev pub download : File → Result (List File) → M (Answer Download)
download f (err e) = refuse_with Refusal.internal_error
download f (ok outputs) =
    if count_where (λ o. o.id == f.id) outputs == 0 then refuse_with Refusal.not_found else (do
      first ← attempt (read_file f.storage_uri)
      second ← open_again f first
      opened f second)

abbrev pub file_found : ℕ → Result (Option File) → M (Answer Download)
file_found job (err e) = refuse_with Refusal.not_found
file_found job (ok none) = refuse_with Refusal.not_found
file_found job (ok (some f)) = do
  outputs ← attempt (Files.list_by_job_and_role job FileRole.output)
  download f outputs

unfoldable pub handle_download_job_output : ℕ → ℕ → ℕ → M (Answer Download)
handle_download_job_output user id file =
    with_own_job user id λ job. do f ← attempt (Files.get_by_id file); file_found id f

module _ {A : Type 0} where
  abbrev pub for_file_owner : ℕ → (File → M (Answer A)) → Result (Option File) → M (Answer A)
  for_file_owner user k (err e) = refuse_with Refusal.not_found
  for_file_owner user k (ok none) = refuse_with Refusal.not_found
  for_file_owner user k (ok (some f)) =
      if is_some_eq f.user_id user then k f else refuse_with Refusal.forbidden

unfoldable pub handle_get_file : ℕ → ℕ → M (Answer File)
handle_get_file user id = do
  f ← attempt (Files.get_by_id id)
  for_file_owner user (λ g. return (okay g)) f

abbrev pub deleted : Result (Unit {0}) → M (Answer (Unit {0}))
deleted (err e) = refuse_with Refusal.internal_error
deleted (ok _) = return (okay tt)

-- The row is marked; the content stays on disk.
unfoldable pub handle_delete_file : ℕ → ℕ → M (Answer (Unit {0}))
handle_delete_file user id = do
  f ← attempt (Files.get_by_id id)
  for_file_owner user (λ g. do r ← attempt (Files.mark_purged g.id); deleted r) f
