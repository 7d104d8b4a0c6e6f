-- ===== src/Store/Jobs/Examples.antt =====
-- Runs of the job store: gateway/internal/store/jobs.go.
use one_click_agent.Prelude.{◌≡◌, refl, true, false, some, List, [], ◌∷◌, All, select, count_where}
use one_click_agent.Model.{Job, JobStatus, UserTier}
use one_click_agent.Store.Rows.{first_by}
use one_click_agent.World.{db, World}
use one_click_agent.Store.Jobs
use one_click_agent.Store.Jobs.{
  after, is_waiting, is_overdue, queue_before, may_cancel, db, first_by,
}
use one_click_agent.Store.Jobs.Queue.{NotBefore, dequeue_next-first}
use one_click_agent.Store.Jobs.Status.{expire_queued-none_overdue}
use one_click_agent.Samples.{job_of, world_of, empty_hub}

abbrev pro_job : Job
pro_job = job_of 1 5 UserTier.pro JobStatus.queued

abbrev free_job : Job
free_job = job_of 2 9 UserTier.free JobStatus.queued

abbrev late_job : Job
late_job = record (job_of 3 2 UserTier.free JobStatus.queued) { queue_expires_at = some 50 }

abbrev done_job : Job
done_job = job_of 4 2 UserTier.free JobStatus.cancelled

abbrev jobs_world : List Job → World
jobs_world jobs = world_of jobs [] empty_hub

dequeue_next-first_example :
    (free_job.status ≡ JobStatus.queued)
    × (after free_job.queue_expires_at 100 ≡ true)
    × All (NotBefore free_job) (select (is_waiting 100) (pro_job ∷ free_job ∷ late_job ∷ []))
unfolding Jobs.dequeue_next db first_by
dequeue_next-first_example =
    dequeue_next-first (jobs_world (pro_job ∷ free_job ∷ late_job ∷ [])) free_job refl

expire_queued-none_overdue_example :
    All
      (λ j. is_overdue 100 j ≡ false)
      (Jobs.expire_queued (jobs_world (pro_job ∷ late_job ∷ []))).1.jobs
    × (1 ≡ count_where (is_overdue 100) (pro_job ∷ late_job ∷ []))
unfolding Jobs.expire_queued db
expire_queued-none_overdue_example =
    expire_queued-none_overdue (jobs_world (pro_job ∷ late_job ∷ [])) 1 refl
