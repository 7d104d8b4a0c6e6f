-- ===== src/Store/Jobs/Queue.antt =====
-- Which job is dequeued, and what expiry leaves in the queue.
use one_click_agent.Prelude.{
  ◌⊎◌, ◌≤◌, ℕ, ◌<◌, ◌≡◌, ◌≢◌, true, false, some, arith, All, All-imp, select, select-passes,
}
use one_click_agent.Model.{Job, JobStatus, UserTier, tier_priority, tier_text_order}
use one_click_agent.World.Calls.{query-inv}
use one_click_agent.World.{World, ok}
use one_click_agent.Store.Rows.{first_by, first_by-All, first_by-least}
use one_click_agent.Store.Jobs.{after, is_waiting, queue_before, dequeue_next}

-- What the call returns comes from the query.
dequeue_next-query :
    (w : World) (j : Job)
    → (dequeue_next w).0 ≡ ok (some j)
    → first_by queue_before (select (is_waiting w.now) w.jobs) ≡ some j
unfolding dequeue_next
dequeue_next-query w j e =
    (query-inv (λ v. first_by queue_before (select (is_waiting v.now) v.jobs)) w (some j) e).1

queue_before_irrefl : (a : Job) → queue_before a a ≡ false
queue_before_irrefl a = ground arith

queue_before_trans :
    (a b c : Job) → queue_before b a ≡ false → queue_before c b ≡ false → queue_before c a ≡ false
queue_before_trans a b c h k = ground arith

queue_before_asym : (a b : Job) → queue_before a b ≡ true → queue_before b a ≡ false
queue_before_asym a b h = ground arith

-- The order of the queue: by the text of the tier, then by creation.
abbrev pub NotBefore : Job → Job → Type 0
NotBefore j k =
    (tier_text_order j.user_tier < tier_text_order k.user_tier)
    ⊎ ((tier_text_order j.user_tier ≡ tier_text_order k.user_tier) × (j.created_at ≤ k.created_at))

queue_before-NotBefore : (j k : Job) → queue_before k j ≡ false → NotBefore j k
queue_before-NotBefore j k h = ground arith

waiting_cases :
    (now : ℕ) (j : Job)
    → is_waiting now j ≡ true
    → (j.status ≡ JobStatus.queued) × (after j.queue_expires_at now ≡ true)
waiting_cases now j h = ground arith

-- A dequeued job is queued, its time in the queue is not over, and of the jobs for which that holds
-- it has the least tier by the tier's text, and among those of its tier the earliest creation.
pub dequeue_next-first :
    (w : World) (j : Job)
    → (dequeue_next w).0 ≡ ok (some j)
    → (j.status ≡ JobStatus.queued)
      × (after j.queue_expires_at w.now ≡ true)
      × All (NotBefore j) (select (is_waiting w.now) w.jobs)
dequeue_next-first w j e =
    let q = dequeue_next-query w j e in
    let waiting = select (is_waiting w.now) w.jobs in
    let found =
      first_by-All (λ k. is_waiting w.now k ≡ true) queue_before waiting j
        (select-passes (is_waiting w.now) w.jobs) q in
    let (queued, in_time) = waiting_cases w.now j found in
    (
      queued,
      in_time,
      All-imp (λ k. queue_before k j ≡ false) (NotBefore j) waiting
          (λ k h. queue_before-NotBefore j k h)
          (first_by-least queue_before waiting j queue_before_irrefl queue_before_trans
            queue_before_asym q),
    )

free_first : (k j : Job) → NotBefore j k → j.user_tier ≡ UserTier.pro → k.user_tier ≢ UserTier.free
free_first k j h pro free = ground arith

-- While a customer of the free tier waits no job of the pro tier is dequeued, although the pro tier
-- has the higher priority.
pub dequeue_next-free_before_pro :
    (w : World) (j : Job)
    → (dequeue_next w).0 ≡ ok (some j)
    → j.user_tier ≡ UserTier.pro
    → All (λ k. k.user_tier ≢ UserTier.free) (select (is_waiting w.now) w.jobs)
      × (tier_priority UserTier.pro < tier_priority UserTier.free)
dequeue_next-free_before_pro w j e pro = (
  All-imp (NotBefore j) (λ k. k.user_tier ≢ UserTier.free) _ (λ k h. free_first k j h pro)
      (dequeue_next-first w j e).2,
  omega arith,
)
