-- ===== src/Store/Files.antt =====
-- `FileStore`: gateway/internal/store/files.go, with the constraints of the tables `files` and
-- `job_files` from gateway/migrations. No user has the nil identifier, which is `none`.
use one_click_agent.Prelude.{
  ℕ, Bool, ◌&&◌, not, Option, none, some, List, [], ◌∷◌, ◌++◌, ltb, ◌==◌, if◌then◌else◌, is_some,
  is_some_eq, find_first, count_where, select,
}
use one_click_agent.Model.{
  File, FileStatus, FileRole, same_role, JobFile, is_staged_cloud, is_purged,
}
use one_click_agent.World.{World, M, ok, err, db_error, db, new_uuid, ◌>>=◌}
use one_click_agent.Store.Pages.{list_page}
use one_click_agent.Store.Rows.{update_where}

abbrev pub exec : (File → Bool) → (ℕ → File → File) → M (Unit {0})
exec p f = db (λ w. (ok tt, record w { files = update_where p (f w.now) w.files }))

abbrev pub query : {A : Type 0} → (World → A) → M A
query f = db (λ w. (ok (f w), w))

abbrev pub has_id : ℕ → File → Bool
has_id id f = f.id == id

-- Whatever id the caller chose is replaced.
abbrev pub stamped : ℕ → ℕ → File → File
stamped id now f = record f { id = id; created_at = now }

abbrev pub inserted : File → File
inserted f = record f { purged_at = none }

-- user_id NOT NULL REFERENCES users(id).
abbrev pub insert_file : File → M File
insert_file f w =
    if is_some f.user_id
    then (ok f, record w { files = w.files ++ inserted f ∷ [] })
    else (err db_error, w)

unfoldable pub create : File → M File
create f = do id ← new_uuid; db (λ w. insert_file (stamped id w.now f) w)

unfoldable pub get_by_id : ℕ → M (Option File)
get_by_id id = query (λ w. find_first (has_id id) w.files)

unfoldable pub update_status : ℕ → FileStatus → M (Unit {0})
update_status id status = exec (has_id id) (λ now f. record f { status = status })

abbrev pub purged : ℕ → File → File
purged now f = record f { status = FileStatus.purged; purged_at = some now }

unfoldable pub mark_purged : ℕ → M (Unit {0})
mark_purged id = exec (has_id id) purged

unfoldable pub update_sha256 : ℕ → ℕ → M (Unit {0})
update_sha256 id sha256 = exec (has_id id) (λ now f. record f { sha256 = sha256 })

unfoldable pub list_staged_cloud : ℕ → M (List File)
list_staged_cloud older_than =
    query (λ w. select (λ f. is_staged_cloud f.status && ltb f.created_at older_than) w.files)

abbrev pub has_link : ℕ → ℕ → JobFile → Bool
has_link file job l = (l.job_id == job) && (l.file_id == file)

-- ON CONFLICT (job_id, file_id) DO UPDATE SET role.
abbrev pub upsert : ℕ → JobFile → List JobFile → List JobFile
upsert n l links =
    if n == 0
    then links ++ l ∷ []
    else update_where (has_link l.file_id l.job_id) (λ old. record old { role = l.role }) links

-- Both columns are foreign keys.
abbrev pub can_link : ℕ → ℕ → World → Bool
can_link file job w =
    not (count_where (has_id file) w.files == 0) && not (count_where (λ j. j.id == job) w.jobs == 0)

abbrev pub link : JobFile → M (Unit {0})
link l w =
    if can_link l.file_id l.job_id w
    then (
      ok tt,
      record w {
        job_files = upsert (count_where (has_link l.file_id l.job_id) w.job_files) l w.job_files;
      },
    )
    else (err db_error, w)

unfoldable pub link_to_job : ℕ → ℕ → FileRole → M (Unit {0})
link_to_job file job role = db (link (record { job_id = job; file_id = file; role = role }))

-- FROM files f JOIN job_files jf ON f.id = jf.file_id.
abbrev pub joined : (JobFile → Bool) → World → List File
joined p w =
    select (λ f. not (count_where (λ l. (l.file_id == f.id) && p l) w.job_files == 0)) w.files

unfoldable pub list_by_job : ℕ → M (List File)
list_by_job job = query (joined (λ l. l.job_id == job))

unfoldable pub list_by_job_and_role : ℕ → FileRole → M (List File)
list_by_job_and_role job role = query (joined (λ l. (l.job_id == job) && same_role l.role role))

abbrev pub is_listed : ℕ → File → Bool
is_listed user f = is_some_eq f.user_id user && not (is_purged f.status)

-- A page of a user's files, the newest first, and the cursor of the next.
unfoldable pub list_by_user : ℕ → Option ℕ → ℕ → M (List File × Option ℕ)
list_by_user user cursor limit =
    query (λ w. list_page (λ f. f.id) (λ f. f.created_at) (is_listed user) cursor limit w.files)
