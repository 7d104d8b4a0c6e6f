-- ===== src/Model/Devices.antt =====
-- Devices: model/types.go. Their resources are not modelled.
use Prim.Native.String.{String}
use one_click_agent.Prelude.{ℕ, Bool, true, false, Option}

pub data DeviceStatus : Type 0 where
  enrolled online offline : DeviceStatus

abbrev pub is_online : DeviceStatus → Bool
is_online DeviceStatus.online = true
is_online _ = false

pub record Device : Type 0 where
  pub id : ℕ
  pub operator_id : ℕ
  pub name : String
  pub description : String
  pub platform : String
  pub status : DeviceStatus
  pub token_hash : String
  pub token_rotated_at : Option ℕ
  pub last_seen_at : Option ℕ
  pub created_at : ℕ
  pub updated_at : ℕ
