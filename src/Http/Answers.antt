-- ===== src/Http/Answers.antt =====
-- What a handler answers, and the check of a job's owner that the job handlers of
-- gateway/internal/httpapi/jobs_handler.go begin with. The user is the one that the request's token
-- names.
use one_click_agent.Prelude.{ℕ, Option, none, some, ◌==◌, if◌then◌else◌}
use one_click_agent.Model.{Job}
use one_click_agent.World.{M, Result, ok, err, return, attempt, ◌>>=◌}
use one_click_agent.Store.Jobs

-- The codes of model/types.go that the handlers use, each with its HTTP status.
pub data Refusal : Type 0 where
  validation_failed unauthorized forbidden not_found conflict queue_full : Refusal
  internal_error gateway_timeout : Refusal

-- 201, 202, 200, or an error.
pub data Answer (A : Type 0) : Type 0 where
  created accepted okay : A → Answer A
  refused : Refusal → Answer A

module _ {A : Type 0} where
  abbrev pub refuse_with : Refusal → M (Answer A)
  refuse_with r = return (refused r)

  abbrev pub if_owner : ℕ → (Job → M (Answer A)) → Job → M (Answer A)
  if_owner user k job = if job.user_id == user then k job else refuse_with Refusal.forbidden

  -- An error of the lookup is answered as a job that is not there.
  abbrev pub for_owner : ℕ → (Job → M (Answer A)) → Result (Option Job) → M (Answer A)
  for_owner user k (ok (some job)) = if_owner user k job
  for_owner user k (ok none) = refuse_with Refusal.not_found
  for_owner user k (err e) = refuse_with Refusal.not_found

  unfoldable pub with_own_job : ℕ → ℕ → (Job → M (Answer A)) → M (Answer A)
  with_own_job user id k = do job ← attempt (Jobs.get_by_id id); for_owner user k job
