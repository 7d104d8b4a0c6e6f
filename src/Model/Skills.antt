-- ===== src/Model/Skills.antt =====
-- Skills, their versions, where they are installed and who may see them: model/types.go.
use Prim.Native.String.{String}
use one_click_agent.Prelude.{ℕ, Bool, true, false, Option, List}
use one_click_agent.Model.Files.{Bytes}

pub data SkillVisibility : Type 0 where
  public restricted : SkillVisibility
  other_visibility : String → SkillVisibility

abbrev pub is_public : SkillVisibility → Bool
is_public SkillVisibility.public = true
is_public _ = false

pub data SkillInstallStatus : Type 0 where
  installing installed disabled updating deleting error pending : SkillInstallStatus

abbrev pub is_installed : SkillInstallStatus → Bool
is_installed SkillInstallStatus.installed = true
is_installed _ = false

pub data AgentSkillStatus : Type 0 where
  enabled disabled : AgentSkillStatus

pub data PrincipalType : Type 0 where
  user org : PrincipalType

abbrev pub same_principal : PrincipalType → PrincipalType → Bool
same_principal PrincipalType.user PrincipalType.user = true
same_principal PrincipalType.org PrincipalType.org = true
same_principal _ _ = false

-- `other_scope` is any text that is neither constant.
pub data SkillScope : Type 0 where
  device agent other_scope : SkillScope

pub data SkillAction : Type 0 where
  install enable disable update delete : SkillAction

pub record Skill : Type 0 where
  pub id : ℕ
  pub key : String
  pub name : String
  pub description : String
  pub visibility : SkillVisibility
  pub latest_version : Bytes
  pub status : String
  pub created_at : ℕ
  pub updated_at : ℕ

-- The artifact's path is a number.
pub record SkillVersion : Type 0 where
  pub id : ℕ
  pub skill_id : ℕ
  pub version : Bytes
  pub manifest : String
  pub artifact_uri : ℕ
  pub sha256 : ℕ
  pub created_at : ℕ

pub record DeviceSkill : Type 0 where
  pub device_id : ℕ
  pub skill_id : ℕ
  pub version : Bytes
  pub status : SkillInstallStatus
  pub installed_by : Option ℕ
  pub error_message : Option String
  pub updated_at : ℕ

pub record AgentSkill : Type 0 where
  pub agent_id : ℕ
  pub skill_id : ℕ
  pub status : AgentSkillStatus
  pub selected_by : Option ℕ
  pub updated_at : ℕ

pub record SkillGrant : Type 0 where
  pub skill_id : ℕ
  pub principal_type : PrincipalType
  pub principal_id : ℕ
  pub granted_by : ℕ
  pub created_at : ℕ

pub record SkillDispatchBeginPayload : Type 0 where
  pub skill_id : ℕ
  pub skill_version_id : ℕ
  pub version : Bytes
  pub total_chunks : ℕ
  pub total_bytes : ℕ
  pub sha256 : ℕ

pub record SkillChunkPayload : Type 0 where
  pub skill_id : ℕ
  pub skill_version_id : ℕ
  pub chunk_index : ℕ
  pub content : Bytes

pub record SkillDispatchEndPayload : Type 0 where
  pub skill_id : ℕ
  pub skill_version_id : ℕ

pub record SkillActionPayload : Type 0 where
  pub scope : SkillScope
  pub action : SkillAction
  pub skill_id : ℕ
  pub version : Option Bytes
  pub agent_id : Option ℕ

pub record SkillRetryPayload : Type 0 where
  pub skill_id : ℕ
  pub agent_ids : List ℕ
  pub version : Option Bytes

pub record SkillSyncPayload : Type 0 where
  pub device_skills : List DeviceSkill
  pub agent_skills : List AgentSkill

-- What a device reports.
pub record SkillStatePayload : Type 0 where
  pub skill_id : ℕ
  pub skill_version_id : ℕ
  pub scope : SkillScope
  pub status : SkillInstallStatus
  pub agent_id : Option ℕ
  pub error : Option String
