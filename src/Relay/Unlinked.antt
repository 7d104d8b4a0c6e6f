-- ===== src/Relay/Unlinked.antt =====
-- What becomes of the row of a pulled file: the end of `OnFilePullEnd` in
-- gateway/internal/relay/relay.go with `Create` and `LinkToJob` of gateway/internal/store/files.go.
use one_click_agent.Prelude.{
  ℕ, suc, ◌≡◌, refl, ap, ◌∙◌, false, none, some, List, [], ◌∷◌, ◌++◌, count_where, find_first, ◌==◌,
  arith, length, Bool-cases, inl, inr,
}
use one_click_agent.Model.{Bytes, File, FileRole, FileStatus, Job, Location}
use one_click_agent.World.{World, PullTransfer, ok, err, db_error, db}
use one_click_agent.Store.Jobs
use one_click_agent.Store.Files
use one_click_agent.Store.Files.{stamped, inserted}
use one_click_agent.Relay.Names.{is_zip}
use one_click_agent.Relay.Staging.{RelayConfig}
use one_click_agent.Relay.Outputs.{register_for, register_output, user_of}

not_among_files :
    (file : ℕ) (f : File) (files : List File)
    → count_where (Files.has_id file) files ≡ 0
    → (f.id == file) ≡ false
    → count_where (Files.has_id file) (files ++ f ∷ []) ≡ 0
not_among_files file f [] none_there other = rw other refl
not_among_files file f (g ∷ files) none_there other = elim (Bool-cases (g.id == file)) [
  | inl e ↦ absurd (let bad = rw e at none_there in omega (arith, bad))
  | inr e ↦ rw e (not_among_files file f files (rw e at none_there) other)
]

-- The row of the pulled file.
abbrev pub pulled_row : RelayConfig → PullTransfer → Bytes → Location → ℕ → World → File
pulled_row config pt content at user w = record {
  id = w.fresh;
  user_id = some user;
  name = pt.name;
  size = length content;
  mime = [];
  sha256 = pt.sha256;
  storage_uri = at;
  status = FileStatus.staged_cloud;
  created_at = w.now;
  purged_at = none;
}

-- The state once the row is stored.
abbrev stored : RelayConfig → PullTransfer → Bytes → Location → ℕ → World → World
stored config pt content at user w = record w {
  faults = [];
  fresh = suc w.fresh;
  files = w.files ++ pulled_row config pt content at user w ∷ [];
}

module _ (config : RelayConfig) (pt : PullTransfer) (content : Bytes) (at : Location)
    (w : World) where
  stored-not_linkable :
      (user : ℕ)
      → count_where (Files.has_id pt.file_id) w.files ≡ 0
      → (w.fresh == pt.file_id) ≡ false
      → Files.link_to_job pt.file_id pt.job_id FileRole.output (stored config pt content at user w)
        ≡ (err db_error, stored config pt content at user w)
  unfolding Files.link_to_job db
  stored-not_linkable user absent other =
      rw (not_among_files pt.file_id (pulled_row config pt content at user w) w.files absent other)
        refl

  register_for-stores :
      (user : ℕ)
      → count_where (Files.has_id pt.file_id) w.files ≡ 0
      → (w.fresh == pt.file_id) ≡ false
      → is_zip pt.name ≡ false
      → register_for config pt content at (some user) (record w { faults = [] })
        ≡ (ok tt, stored config pt content at user w)
  unfolding register_for Files.create db
  register_for-stores user absent other no_zip =
      rw (stored-not_linkable user absent other, no_zip) refl

  -- Where the table has no row with the id that the device chose for a pulled file, the next new
  -- identifier is another one, the file's job is in the table, the file is no archive, and no
  -- database call fails: registering the file stores its row under a new id and links nothing to
  -- the job, since the link to the device's id breaks the foreign key.
  pub register_output-unlinked :
      (job : Job)
      → w.faults ≡ []
      → find_first (Jobs.has_id pt.job_id) w.jobs ≡ some job
      → count_where (Files.has_id pt.file_id) w.files ≡ 0
      → (w.fresh == pt.file_id) ≡ false
      → is_zip pt.name ≡ false
      → let w' = (register_output config pt content at w).1 in
        (w'.files ≡ w.files ++ pulled_row config pt content at job.user_id w ∷ [])
        × (w'.job_files ≡ w.job_files)
        × ((Files.link_to_job pt.file_id pt.job_id FileRole.output w').0 ≡ err db_error)
  unfolding register_output Jobs.get_by_id db
  register_output-unlinked job calm there absent other no_zip =
      let v = record w { faults = [] } in
      let stores : register_output config pt content at w
          ≡ (ok tt, stored config pt content at job.user_id w) =
        ap (λ fs. register_output config pt content at (record w { faults = fs })) calm
        ∙ ap (λ o. register_for config pt content at (user_of (ok o)) v) there
        ∙ register_for-stores job.user_id absent other no_zip in
      (
        ap (λ r. r.1.files) stores,
        ap (λ r. r.1.job_files) stores,
        ap (λ r. (Files.link_to_job pt.file_id pt.job_id FileRole.output r.1).0) stores
            ∙ ap (λ r. r.0) (stored-not_linkable job.user_id absent other),
      )
