-- ===== src/Samples.antt =====
-- The concrete jobs, agents, frames, connections and states that the examples run on.
use one_click_agent.Prelude.{length, ℕ, ◌+◌, true, false, some, none, List, [], ◌∷◌, ◌*◌}
use one_click_agent.Model.{
  Job, JobStatus, UserTier, Agent, AgentStatus, Frame, FrameType, Payload, frame_version, second,
}
use one_click_agent.Tunnel.Conn.{DeviceConn}
use one_click_agent.Tunnel.Acks.{TrackedFrame}
use one_click_agent.Tunnel.Registry.{in_memory}
use one_click_agent.Tunnel.Hub.{Hub}
use one_click_agent.World.{World}
use one_click_agent.Relay.Staging.{RelayConfig}
use one_click_agent.Pool.Frames.{Deps}
use one_click_agent.Gateway.Handlers.{Gateway}

abbrev pub ping : ℕ → Frame
ping id = record {
  version = frame_version;
  type = FrameType.ping;
  msg_id = id;
  ack_id = none;
  ts = 0;
  payload = Payload.absent;
}

abbrev pub sent_at : ℕ → ℕ → TrackedFrame
sent_at now id = record { msg_id = id; frame = ping id; sent_at = now; retries = 0 }

-- A connection of the device that belongs to a hub.
abbrev pub conn_of : ℕ → List Frame → DeviceConn
conn_of device frames = record {
  device_id = device;
  hub = true;
  outbound = frames;
  acks = [];
  last_seen = 0;
  closed = false;
  close_code = none;
  hello_received = true;
  processed = [];
  frame_count = 0;
  frame_last_ts = 0;
}

-- Device 1 is at the pointer 10.
abbrev pub hub_with : List Frame → Hub in_memory
hub_with frames = record {
  registry = (1, record { node_id = "node-a"; last_seen = 0 }) ∷ [];
  node_id = "node-a";
  devices = (1, 10) ∷ [];
  conns =
      (10, conn_of 1 frames)
      ∷ (11, conn_of 1 [])
      ∷ (12, record (conn_of 1 []) { closed = true })
      ∷ [];
  disconnects = [];
}

abbrev pub empty_hub : Hub in_memory
empty_hub = record { registry = []; node_id = "node-a"; devices = []; conns = []; disconnects = [] }

abbrev pub job_of : ℕ → ℕ → UserTier → JobStatus → Job
job_of id created tier status = record {
  id = id;
  user_id = 7;
  user_tier = tier;
  agent_id = none;
  device_id = none;
  channel = "web";
  command = "open the page";
  params = none;
  skill_id = none;
  status = status;
  percent = some 0;
  progress_message = none;
  result = none;
  error_code = none;
  error_message = none;
  queued_at = none;
  queue_expires_at = some 1000;
  submitted_at = created;
  started_at = none;
  finished_at = none;
  created_at = created;
  updated_at = created;
  queue_position = none;
  estimated_wait_seconds = none;
}

abbrev pub agent_of : ℕ → ℕ → AgentStatus → Agent
agent_of id device status = record {
  id = id;
  device_id = device;
  user_id = none;
  name = "";
  description = "";
  image = "iagent/browser:latest";
  port = 42000 + id;
  tags = [];
  status = status;
  job_id = none;
  limits = none;
  allocated_at = none;
  created_at = 0;
  updated_at = 0;
}

-- A hash that is the length, base64 that is the text itself, and no archive.
abbrev pub plain_relay : RelayConfig
plain_relay = record {
  max_size = 100;
  retention = 0;
  sha256 = λ content. length content;
  encode = λ content. content;
  decode = λ content. some content;
  unzip = λ content. none;
}

abbrev pub world_of : List Job → List Agent → Hub in_memory → World
world_of jobs agents hub = record {
  jobs = jobs;
  agents = agents;
  devices = [];
  hub = hub;
  now = 100;
  fresh = 500;
  faults = [];
  broker = record { subs = []; heap = [] };
  files = [];
  job_files = [];
  disk = [];
  pulls = [];
  users = [];
  tokens = [];
  skills = [];
  skill_versions = [];
  device_skills = [];
  agent_skills = [];
  skill_grants = [];
  artifacts = [];
  vnc = record { sessions = []; shut = []; buffer_cap = 0 };
  vnc_sessions = [];
}

-- No cap on the queue and no hooks.
abbrev pub plain_deps : Deps
plain_deps = record {
  max_queue = 0;
  queue_ttl = 600 * second;
  dispatch_timeout = 60 * second;
  has_files = true;
  cred_ids = none;
  push_credentials = none;
}

abbrev pub plain_gateway : Gateway
plain_gateway = record {
  deps = record plain_deps { max_queue = 1 };
  named = λ id. "agent";
  relay = plain_relay;
}
