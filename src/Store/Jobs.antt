-- ===== src/Store/Jobs.antt =====
-- `JobStore`: gateway/internal/store/jobs.go.
pub mod Queue
pub mod Status
mod Examples
use Prim.Native.String.{String}
use one_click_agent.Prelude.{
  ℕ, ◌+◌, ◌*◌, Bool, true, false, ◌&&◌, ◌||◌, not, Option, none, some, List, [], ◌∷◌, ◌++◌, ltb,
  leb, ◌==◌, if◌then◌else◌, is_some_eq, find_first, count_where, select,
}
use one_click_agent.Model.{
  Job, JobStatus, is_terminal, is_queued, is_dispatched, tier_text_order, second,
}
use one_click_agent.World.{World, M, ok, err, no_rows, db, new_uuid, return, fail, ◌>>=◌, ◌>>◌}
use one_click_agent.Store.Pages.{list_page}
use one_click_agent.Store.Rows.{update_where, first_by, sort_by}

-- UPDATE jobs SET f WHERE p.
abbrev pub update_jobs : (Job → Bool) → (ℕ → Job → Job) → World → World
update_jobs p f w = record w { jobs = update_where p (f w.now) w.jobs }

abbrev pub exec : (World → World) → M (Unit {0})
exec f = db (λ w. (ok tt, f w))

abbrev pub query : {A : Type 0} → (World → A) → M A
query f = db (λ w. (ok (f w), w))

abbrev pub has_id : ℕ → Job → Bool
has_id id j = j.id == id

-- The job with its identity and its instants, as `Create` leaves the caller's.
abbrev pub stamped : ℕ → ℕ → Job → Job
stamped id now j = record j { id = id; created_at = now; updated_at = now; submitted_at = now }

-- The row: the columns that INSERT does not name take their defaults.
abbrev pub inserted : Job → Job
inserted j = record j {
  percent = some 0;
  progress_message = none;
  result = none;
  error_message = none;
  started_at = none;
  finished_at = none;
  queue_position = none;
  estimated_wait_seconds = none;
}

unfoldable pub create : Job → M Job
create j = do
  id ← new_uuid
  db (λ w. let j' = stamped id w.now j in (ok j', record w { jobs = w.jobs ++ inserted j' ∷ [] }))

unfoldable pub get_by_id : ℕ → M (Option Job)
get_by_id id = query (λ w. find_first (has_id id) w.jobs)

abbrev pub with_status : JobStatus → ℕ → Job → Job
with_status status now j = record j {
  status = status;
  finished_at = if is_terminal status then some now else j.finished_at;
  queue_expires_at = if is_queued status then some (now + 3600 * second) else j.queue_expires_at;
  updated_at = now;
}

unfoldable pub update_status : ℕ → JobStatus → M (Unit {0})
update_status id status = exec (update_jobs (has_id id) (with_status status))

-- The test is on the status that comes in, not on the row's.
abbrev pub with_progress : ℕ → String → JobStatus → ℕ → Job → Job
with_progress percent message status now j = record j {
  percent = some percent;
  progress_message = some message;
  status = if is_terminal status then j.status else status;
  updated_at = now;
}

unfoldable pub update_progress : ℕ → ℕ → String → JobStatus → M (Unit {0})
update_progress id percent message status =
    exec (update_jobs (has_id id) (with_progress percent message status))

abbrev pub with_result : JobStatus → Option String → ℕ → Job → Job
with_result status result now j = record j {
  status = status;
  result = result;
  finished_at = some now;
  updated_at = now;
}

unfoldable pub update_result : ℕ → JobStatus → Option String → M (Unit {0})
update_result id status result = exec (update_jobs (has_id id) (with_result status result))

abbrev pub with_agent : ℕ → ℕ → ℕ → Job → Job
with_agent agent device now j = record j {
  agent_id = some agent;
  device_id = some device;
  status = JobStatus.dispatched;
  started_at = some now;
  updated_at = now;
}

unfoldable pub set_agent : ℕ → ℕ → ℕ → M (Unit {0})
set_agent id agent device = exec (update_jobs (has_id id) (with_agent agent device))

abbrev pub without_agent : ℕ → Job → Job
without_agent now j = record j { agent_id = none; device_id = none }

unfoldable pub clear_agent : ℕ → M (Unit {0})
clear_agent id = exec (update_jobs (has_id id) without_agent)

abbrev pub may_cancel : ℕ → ℕ → Job → Bool
may_cancel id user j = (j.id == id) && (j.user_id == user) && not (is_terminal j.status)

abbrev pub cancelled_at : ℕ → Job → Job
cancelled_at now j = record j {
  status = JobStatus.cancelled;
  finished_at = some now;
  updated_at = now;
}

-- `ErrNoRows` if no row was affected.
abbrev pub affected : ℕ → M (Unit {0})
affected n = if n == 0 then fail no_rows else return tt

unfoldable pub cancel : ℕ → ℕ → M (Unit {0})
cancel id user = do
  n ← db (λ w. (
    ok (count_where (may_cancel id user) w.jobs),
    update_jobs (may_cancel id user) cancelled_at w,
  ))
  affected n

-- A nullable instant compared with another.
abbrev pub after : Option ℕ → ℕ → Bool
after none t = false
after (some s) t = ltb t s

abbrev pub at_or_before : Option ℕ → ℕ → Bool
at_or_before none t = false
at_or_before (some s) t = leb s t

-- WHERE status = 'queued' AND queue_expires_at > now.
abbrev pub is_waiting : ℕ → Job → Bool
is_waiting now j = is_queued j.status && after j.queue_expires_at now

-- ORDER BY user_tier ASC, created_at ASC: `user_tier` is a text.
abbrev pub queue_before : Job → Job → Bool
queue_before a b =
    let x = tier_text_order a.user_tier in
    let y = tier_text_order b.user_tier in ltb x y || ((x == y) && ltb a.created_at b.created_at)

unfoldable pub dequeue_next : M (Option Job)
dequeue_next = query (λ w. first_by queue_before (select (is_waiting w.now) w.jobs))

abbrev pub timed_out : String → ℕ → Job → Job
timed_out code now j = record j {
  status = JobStatus.failed;
  error_code = some code;
  error_message = some code;
  finished_at = some now;
  updated_at = now;
}

abbrev pub is_overdue : ℕ → Job → Bool
is_overdue now j = is_queued j.status && at_or_before j.queue_expires_at now

unfoldable pub expire_queued : M ℕ
expire_queued = db (λ w. (
  ok (count_where (is_overdue w.now) w.jobs),
  update_jobs (is_overdue w.now) (timed_out "QUEUE_TIMEOUT") w,
))

-- `started_at <= now - timeout`, read as a sum.
abbrev pub started_before : Option ℕ → ℕ → ℕ → Bool
started_before none timeout now = false
started_before (some s) timeout now = leb (s + timeout) now

abbrev pub is_lost : ℕ → ℕ → Job → Bool
is_lost timeout now j = is_dispatched j.status && started_before j.started_at timeout now

unfoldable pub expire_dispatched : ℕ → M ℕ
expire_dispatched timeout = db (λ w. (
  ok (count_where (is_lost timeout w.now) w.jobs),
  update_jobs (is_lost timeout w.now) (timed_out "DISPATCH_TIMEOUT") w,
))

unfoldable pub count_queued_by_user : ℕ → M ℕ
count_queued_by_user user =
    query (λ w. count_where (λ j. (j.user_id == user) && is_queued j.status) w.jobs)

-- How many queued jobs were created at the given job's instant or before; 0 if there is no such job.
abbrev pub position : List Job → Option Job → ℕ
position jobs none = 0
position jobs (some j) = count_where (λ k. is_queued k.status && leb k.created_at j.created_at) jobs

unfoldable pub get_queue_position : ℕ → M ℕ
get_queue_position id = query (λ w. position w.jobs (find_first (has_id id) w.jobs))

unfoldable pub list_by_agent : ℕ → M (List Job)
list_by_agent agent = query (λ w.
    sort_by (λ a b. ltb a.created_at b.created_at)
      (select (λ j. is_some_eq j.agent_id agent) w.jobs))

-- A page of a user's jobs, the newest first, and the cursor of the next.
unfoldable pub list_by_user : ℕ → Option ℕ → ℕ → M (List Job × Option ℕ)
list_by_user user cursor limit =
    query
      (λ w. list_page (λ j. j.id) (λ j. j.created_at) (λ j. j.user_id == user) cursor limit w.jobs)
