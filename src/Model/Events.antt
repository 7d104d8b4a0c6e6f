-- ===== src/Model/Events.antt =====
-- Events for the web console: model/types.go, and the topics of gateway/internal/pubsub/pubsub.go. The
-- text of a topic is a number, even for jobs and odd for all else that has one.
use one_click_agent.Prelude.{ℕ, ◌*◌}

pub data WsEventType : Type 0 where
  job_progress job_status job_result agent_status device_status skill_rollout login_required :
      WsEventType

pub record WsEvent : Type 0 where
  pub type : WsEventType
  pub topic : ℕ

abbrev pub job_topic : ℕ → ℕ
job_topic job = 2 * job
