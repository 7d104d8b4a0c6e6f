-- ===== src/Http/Access.antt =====
-- Who may see and change a job: the handlers of gateway/internal/httpapi/jobs_handler.go for a user
-- whose job it is not.
use one_click_agent.Prelude.{ℕ, ◌≡◌, refl, Bool, false, some, List, ◌==◌, find_first, inl, inr}
use one_click_agent.Model.{Job}
use one_click_agent.World.{World, M, ok}
use one_click_agent.World.Calls.{db-cases, chosen}
use one_click_agent.Store.Jobs
use one_click_agent.Http.Answers.{Answer, refused, Refusal, with_own_job}
use one_click_agent.Http.Jobs.{handle_get_job, handle_cancel_job, handle_get_job_result}
use one_click_agent.Http.Vnc.{VncConfig, handle_open_vnc, handle_get_job_vnc}
use one_click_agent.Http.Outputs.{handle_list_job_outputs, handle_download_job_output}

-- An error is answered, and nothing changed but the faults that are to come.
abbrev pub IsDenied : {A : Type 0} → M (Answer A) → World → Type 0
IsDenied m w = (r : Refusal) × (fs : List Bool) × (m w ≡ (ok (refused r), chosen fs w))

module _ {A : Type 0} (user id : ℕ) (job : Job) (w : World) where
  denied :
      (k : Job → M (Answer A))
      → find_first (Jobs.has_id id) w.jobs ≡ some job
      → (job.user_id == user) ≡ false
      → IsDenied (with_own_job user id k) w
  unfolding with_own_job Jobs.get_by_id
  denied k there other =
      let (fs, outcome) = db-cases (λ v. (ok (find_first (Jobs.has_id id) v.jobs), v)) w in
      elim outcome [
        | inl e ↦ (Refusal.not_found, fs, rw e refl)
        | inr e ↦ (Refusal.forbidden, fs, rw (e, there, other) refl)
      ]

get-IsDenied :
    (user id : ℕ) (job : Job) (w : World)
    → find_first (Jobs.has_id id) w.jobs ≡ some job
    → (job.user_id == user) ≡ false
    → IsDenied (handle_get_job user id) w
unfolding handle_get_job Jobs.get_by_id
get-IsDenied user id job w there other =
    let (fs, outcome) = db-cases (λ v. (ok (find_first (Jobs.has_id id) v.jobs), v)) w in
    elim outcome [
      | inl e ↦ (Refusal.internal_error, fs, rw e refl)
      | inr e ↦ (Refusal.forbidden, fs, rw (e, there, other) refl)
    ]

-- A user whose job it is not is answered with an error when they ask for the job, cancel it, ask for
-- its result, its outputs or the content of one of them, open a VNC session for it or ask for its
-- status, and none of these requests changes anything, whichever database calls fail.
pub with_own_job-IsDenied :
    (user id file : ℕ) (c : VncConfig) (job : Job) (w : World)
    → find_first (Jobs.has_id id) w.jobs ≡ some job
    → (job.user_id == user) ≡ false
    → IsDenied (handle_get_job user id) w
      × IsDenied (handle_cancel_job user id) w
      × IsDenied (handle_get_job_result user id) w
      × IsDenied (handle_list_job_outputs user id) w
      × IsDenied (handle_download_job_output user id file) w
      × IsDenied (handle_open_vnc c user id) w
      × IsDenied (handle_get_job_vnc c user id) w
unfolding handle_open_vnc handle_get_job_vnc handle_cancel_job handle_get_job_result
    handle_list_job_outputs handle_download_job_output
with_own_job-IsDenied user id file c job w there other = (
  get-IsDenied user id job w there other,
  denied user id job w _ there other,
  denied user id job w _ there other,
  denied user id job w _ there other,
  denied user id job w _ there other,
  denied user id job w _ there other,
  denied user id job w _ there other,
)
