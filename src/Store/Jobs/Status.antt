-- ===== src/Store/Jobs/Status.antt =====
-- What the statements of the job store do to the status of the rows.
use Prim.Native.String.{String}
use one_click_agent.Prelude.{
  ltb, ◌==◌, ◌⊎◌, ℕ, ◌≡◌, refl, sym, Bool, true, false, List, [], ◌∷◌, arith, All, count_where,
  subst, inl, inr, Bool-cases,
}
use one_click_agent.Model.{Job, JobStatus, is_terminal}
use one_click_agent.World.{World, ok}
use one_click_agent.World.Calls.{db-works, step-inv}
use one_click_agent.Store.Rows.{update_where}
use one_click_agent.Store.Jobs.{
  affected, has_id, is_overdue, timed_out, expire_queued, update_jobs, update_progress,
  with_progress, cancel, err, no_rows, may_cancel, cancelled_at,
}

-- The rows after an update, one by one.
updated :
    (P : Job → Type 0) (p : Job → Bool) (f : Job → Job) (xs : List Job)
    → ((x : Job) → p x ≡ true → P (f x))
    → ((x : Job) → p x ≡ false → P x)
    → All P (update_where p f xs)
unfolding update_where
updated P p f [] yes_ no_ = tt
updated P p f (x ∷ xs) yes_ no_ = (
  elim (Bool-cases (p x)) [ inl e ↦ rw e (yes_ x e) | inr e ↦ rw e (no_ x e) ],
  updated P p f xs yes_ no_,
)

-- After an expiry that succeeded, no queued job is past its time, and the number returned is the
-- number of rows that were.
pub expire_queued-none_overdue :
    (w : World) (n : ℕ)
    → (expire_queued w).0 ≡ ok n
    → All (λ j. is_overdue w.now j ≡ false) (expire_queued w).1.jobs
      × (n ≡ count_where (is_overdue w.now) w.jobs)
unfolding expire_queued
expire_queued-none_overdue w n e =
    let (gs, value, state) =
      step-inv (λ v. count_where (is_overdue v.now) v.jobs)
        (λ v. update_jobs (is_overdue v.now) (timed_out "QUEUE_TIMEOUT") v) w n e in
    (
      subst (λ v. All (λ j. is_overdue w.now j ≡ false) v.jobs) (sym state)
          (updated (λ j. is_overdue w.now j ≡ false) (is_overdue w.now)
            (timed_out "QUEUE_TIMEOUT" w.now) w.jobs (λ x h. refl) (λ x h. h)),
      sym value,
    )

-- A progress report whose status is not terminal gives every row of its job that status, whatever
-- the row's status was: a job that was cancelled, failed or finished is active again.
pub update_progress-sets :
    (w : World) (id percent : ℕ) (message : String) (status : JobStatus)
    → (update_progress id percent message status w).0 ≡ ok tt
    → is_terminal status ≡ false
    → All (λ j. j.id ≡ id → j.status ≡ status) (update_progress id percent message status w).1.jobs
unfolding update_progress
update_progress-sets w id percent message status e active =
    let (gs, value, state) =
      step-inv (λ v. tt) (λ v. update_jobs (has_id id) (with_progress percent message status) v) w
        tt e in
    subst (λ v. All (λ j. j.id ≡ id → j.status ≡ status) v.jobs) (sym state)
      (updated (λ j. j.id ≡ id → j.status ≡ status) (has_id id)
        (with_progress percent message status w.now) w.jobs (λ x h _. rw active refl)
        (λ x h same. ground arith))

count_zero-none :
    (p : Job → Bool) (xs : List Job) → count_where p xs ≡ 0 → All (λ j. p j ≡ false) xs
count_zero-none p [] e = tt
count_zero-none p (x ∷ xs) e = ground (arith, count_zero-none p xs)

unchanged :
    (p : Job → Bool) (f : Job → Job) (xs : List Job)
    → All (λ j. p j ≡ false) xs
    → update_where p f xs ≡ xs
unfolding update_where
unchanged p f [] h = refl
unchanged p f (x ∷ xs) h = ground (arith, unchanged p f xs h.1)

affected-cases :
    (n : ℕ) (w : World)
    → ((affected n w ≡ (ok tt, w)) × (ltb 0 n ≡ true))
      ⊎ ((affected n w ≡ (err no_rows, w)) × (n ≡ 0))
affected-cases n w = elim (Bool-cases (n == 0)) [
  | inl e ↦ inr (rw e refl, ground arith)
  | inr e ↦ inl (rw e refl, ground arith)
]

-- With no database fault to come, a cancellation either succeeds, some job of that id and user was
-- active, and every job of that id and user is then in a terminal status; or it fails for want of
-- such a job, and then no row matched and the rows are as they were.
pub cancel-branches :
    (w : World) (id user : ℕ)
    → w.faults ≡ []
    → ((cancel id user w).0 ≡ ok tt)
        × (ltb 0 (count_where (may_cancel id user) w.jobs) ≡ true)
        × All (λ j. may_cancel id user j ≡ false) (cancel id user w).1.jobs
      ⊎ ((cancel id user w).0 ≡ err no_rows)
        × All (λ j. may_cancel id user j ≡ false) w.jobs
        × ((cancel id user w).1.jobs ≡ w.jobs)
unfolding cancel
cancel-branches w id user calm =
    let p = may_cancel id user in
    let w' = update_jobs p cancelled_at w in
    let n = count_where p w.jobs in
    rw (db-works (λ v. (ok (count_where p v.jobs), update_jobs p cancelled_at v)) w calm)
      (elim (affected-cases n w') [
        | inl (e, some_row) ↦ rw e (
            inl (
              refl,
              some_row,
              updated (λ j. p j ≡ false) p (cancelled_at w.now) w.jobs (λ x h. ground arith)
                  (λ x h. h),
            ))
        | inr (e, no_row) ↦
            let none_active = count_zero-none p w.jobs no_row in
            rw e (inr (refl, none_active, unchanged p (cancelled_at w.now) w.jobs none_active))
      ])
