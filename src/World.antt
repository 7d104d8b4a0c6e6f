-- ===== src/World.antt =====
-- The state that the gateway's parts act on: the tables of the database, the hub, the broker, the VNC
-- relay, the files on disk and the transfers in progress, the clock, the supply of new identifiers,
-- and the environment's choice of which calls of it fail.
-- A call of a method is a computation that changes this state and ends in a result or an error; one
-- computation reads one instant, and the environment moves the clock between computations.
pub mod Keeps
pub mod Calls
pub mod Cases
use one_click_agent.Prelude.{ℕ, suc, Bool, true, false, Dict, Option, some, none, List, [], ◌∷◌}
use one_click_agent.Model.{
  Job, Agent, Device, File, JobFile, Location, Bytes, User, RefreshToken, Skill, SkillVersion,
  DeviceSkill, AgentSkill, SkillGrant, VncSession,
}
use one_click_agent.VncRelay
use one_click_agent.PubSub.{Broker}
use one_click_agent.Tunnel.Registry.{in_memory}
use one_click_agent.Tunnel.Hub.{Hub}

-- A transfer from a device in progress: the relay's `pullTransfer`, its two slices as one list.
pub record PullTransfer : Type 0 where
  pub file_id : ℕ
  pub job_id : ℕ
  pub name : Bytes
  pub sha256 : ℕ
  pub chunks : ℕ
  pub buf : List (Option Bytes)

pub record World : Type 0 where
  pub jobs : List Job
  pub agents : List Agent
  pub devices : List Device
  pub hub : Hub in_memory
  pub now : ℕ
  pub fresh : ℕ
  pub faults : List Bool
  pub broker : Broker
  pub files : List File
  pub job_files : List JobFile
  pub disk : List (Location × Bytes)
  pub pulls : Dict PullTransfer
  pub users : List User
  pub tokens : List RefreshToken
  pub skills : List Skill
  pub skill_versions : List SkillVersion
  pub device_skills : List DeviceSkill
  pub agent_skills : List AgentSkill
  pub skill_grants : List SkillGrant
  pub artifacts : Dict Bytes
  pub vnc : VncRelay.Relay
  pub vnc_sessions : List VncSession

pub data Error : Type 0 where
  db_error no_rows send_error queue_full agent_not_found agent_has_active_job : Error
  os_error job_not_found file_not_found bad_payload file_too_large invalid_filename : Error
  no_active_pull invalid_base64 index_out_of_range missing_chunk sha256_mismatch file_ack_error :
      Error
  version_not_found unique_violation foreign_key_violation invalid_skill_state : Error
  vnc_error : Error

pub data Result (A : Type 0) : Type 0 where
  ok : A → Result A
  err : Error → Result A

abbrev pub M : Type 0 → Type 0
M A = World → Result A × World

abbrev pub next : {A B : Type 0} → Result A × World → (A → M B) → Result B × World
next (ok a, w) f = f a w
next (err e, w) f = (err e, w)

infixl 5 ◌>>=◌ ◌>>◌
abbrev pub ◌>>=◌ : {A B : Type 0} → M A → (A → M B) → M B
◌>>=◌ m f w = next (m w) f

abbrev pub ◌>>◌ : {B : Type 0} → M (Unit {0}) → M B → M B
m >> k = m >>= λ _. k

abbrev pub return : {A : Type 0} → A → M A
return a w = (ok a, w)

abbrev pub fail : {A : Type 0} → Error → M A
fail e w = (err e, w)

abbrev pub settled : {A : Type 0} → Result A × World → Result (Result A) × World
settled (r, w) = (ok r, w)

-- Go's `a, err := m`, where the code goes on whatever `err` is.
abbrev pub attempt : {A : Type 0} → M A → M (Result A)
attempt m w = settled (m w)

-- `_ = m`.
abbrev pub ignore : {A : Type 0} → M A → M (Unit {0})
ignore m = attempt m >>= λ _. return tt

-- A database call: the environment may make it fail, and then nothing is changed.
abbrev pub db_call : {A : Type 0} → List Bool → M A → M A
db_call [] m w = m w
db_call (true ∷ fs) m w = (err db_error, record w { faults = fs })
db_call (false ∷ fs) m w = m (record w { faults = fs })

unfoldable pub db : {A : Type 0} → M A → M A
db m w = db_call w.faults m w

-- A call of the operating system, which the environment may make fail.
abbrev pub os_call : {A : Type 0} → List Bool → M A → M A
os_call [] m w = m w
os_call (true ∷ fs) m w = (err os_error, record w { faults = fs })
os_call (false ∷ fs) m w = m (record w { faults = fs })

unfoldable pub os : {A : Type 0} → M A → M A
os m w = os_call w.faults m w

abbrev pub new_uuid : M ℕ
new_uuid w = (ok w.fresh, record w { fresh = suc w.fresh })
