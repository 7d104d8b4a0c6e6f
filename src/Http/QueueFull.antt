-- ===== src/Http/QueueFull.antt =====
-- A job that the cap on queued jobs refuses: `handleSubmitJob` of
-- gateway/internal/httpapi/jobs_handler.go with `Allocate` of gateway/internal/pool/allocator.go.
use Prim.Native.String.{String}
use one_click_agent.Prelude.{ℕ, ◌&&◌, none, List, count_where, ◌==◌}
use one_click_agent.Model.{Job, is_queued}
use one_click_agent.World.{World}
use one_click_agent.Store.Jobs
use one_click_agent.Store.Jobs.{stamped, inserted}
use one_click_agent.Store.Files
use one_click_agent.Gateway.Handlers.{Gateway}
use one_click_agent.Http.Submit.{new_job}

-- The row of a submitted job.
abbrev pub submitted_row : ℕ → String → World → Job
submitted_row user command w = inserted (stamped w.fresh w.now (new_job user command none))

abbrev queued_of : ℕ → List Job → ℕ
queued_of user jobs = count_where (λ j. (j.user_id == user) && is_queued j.status) jobs
