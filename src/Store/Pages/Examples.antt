-- ===== src/Store/Pages/Examples.antt =====
-- A list read page by page: `ListByUser` of gateway/internal/store/jobs.go.
use one_click_agent.Prelude.{◌≡◌, refl, none, [], ◌∷◌, ◌==◌, arith}
use one_click_agent.Model.{Job, JobStatus, UserTier}
use one_click_agent.Store.Rows.{sort_by}
use one_click_agent.Store.Pages.Walk.{walk, walk-whole}
use one_click_agent.Samples.{job_of}

abbrev oldest : Job
oldest = record (job_of 1 5 UserTier.pro JobStatus.queued) { created_at = 10 }

abbrev newest : Job
newest = record (job_of 2 5 UserTier.pro JobStatus.queued) { created_at = 30 }

abbrev middle : Job
middle = record (job_of 3 5 UserTier.pro JobStatus.queued) { created_at = 20 }

abbrev other : Job
other = record (job_of 4 5 UserTier.pro JobStatus.queued) { created_at = 25; user_id = 8 }

-- Two pages of two.
walk-whole_example :
    walk
      (λ j. j.id)
      (λ j. j.created_at)
      (λ j. j.user_id == 7)
      2
      (oldest ∷ newest ∷ other ∷ middle ∷ [])
      4
      none
    ≡ newest ∷ middle ∷ oldest ∷ []
unfolding sort_by
walk-whole_example =
    walk-whole (λ j. j.id) (λ j. j.created_at) (λ j. j.user_id == 7) 2
      (oldest ∷ newest ∷ other ∷ middle ∷ []) 4
      ((omega arith, (omega arith, tt)), ((omega arith, tt), (tt, tt))) (refl, (refl, (refl, tt)))
      (omega arith)
