-- ===== src/Skills/Vault.antt =====
-- The skill catalogue: gateway/internal/skillvault/vault.go. The artifact's path, which joins the
-- base directory, the skill's id and the text of the version, is a parameter, as is SHA-256. A
-- reader of an artifact gives its whole content.
use Prim.Native.String.{String}
use one_click_agent.Prelude.{ℕ, Bool, Option, none, some, [], Dict, lookup, insert, erase}
use one_click_agent.Model.{Bytes, Skill, SkillVersion, SkillVisibility, PrincipalType}
use one_click_agent.World.{
  M, Result, ok, err, os_error, os, return, fail, attempt, ignore, ◌>>=◌, ◌>>◌,
}
use one_click_agent.Store.Skills
use one_click_agent.Store.Grants

pub record VaultConfig : Type 0 where
  pub path : ℕ → Bytes → ℕ
  pub sha256 : Bytes → ℕ
  pub same_key : String → String → Bool

abbrev pub new_skill : String → String → String → SkillVisibility → Skill
new_skill key name description visibility = record {
  id = 0;
  key = key;
  name = name;
  description = description;
  visibility = visibility;
  latest_version = [];
  status = "active";
  created_at = 0;
  updated_at = 0;
}

unfoldable pub create_skill : VaultConfig → String → String → String → SkillVisibility → M Skill
create_skill v key name description visibility =
    Skills.create_skill v.same_key (new_skill key name description visibility)

-- Calls of the operating system: the directories are the environment's.
abbrev pub change : (Dict Bytes → Dict Bytes) → M (Unit {0})
change f = os (λ w. (ok tt, record w { artifacts = f w.artifacts }))

-- `os.Create` empties the file that is there.
unfoldable pub create_artifact : ℕ → M (Unit {0})
create_artifact path = change (insert path [])

unfoldable pub copy_artifact : ℕ → Bytes → M (Unit {0})
copy_artifact path content = change (insert path content)

unfoldable pub remove_artifact : ℕ → M (Unit {0})
remove_artifact path = change (erase path)

abbrev pub found : Option Bytes → M Bytes
found none = fail os_error
found (some content) = return content

unfoldable pub open_artifact : SkillVersion → M Bytes
open_artifact v = os (λ w. found (lookup v.artifact_uri w.artifacts) w)

abbrev pub new_version : VaultConfig → ℕ → Bytes → String → Bytes → SkillVersion
new_version v skill version manifest content = record {
  id = 0;
  skill_id = skill;
  version = version;
  manifest = manifest;
  artifact_uri = v.path skill version;
  sha256 = v.sha256 content;
  created_at = 0;
}

abbrev pub version_created : ℕ → ℕ → Bytes → Result SkillVersion → M SkillVersion
version_created path skill version (err e) = do ignore (remove_artifact path); fail e
version_created path skill version (ok v) = do
  ignore (Skills.set_latest_version skill version)
  return v

abbrev pub copied : ℕ → ℕ → Bytes → SkillVersion → Result (Unit {0}) → M SkillVersion
copied path skill version row (err e) = do ignore (remove_artifact path); fail e
copied path skill version row (ok u) = do
  r ← attempt (Skills.create_version row)
  version_created path skill version r

-- The first call makes the version's directory.
unfoldable pub publish_version : VaultConfig → ℕ → Bytes → String → Bytes → M SkillVersion
publish_version v skill version manifest content = do
  change (λ d. d)
  create_artifact (v.path skill version)
  r ← attempt (copy_artifact (v.path skill version) content)
  copied (v.path skill version) skill version (new_version v skill version manifest content) r

unfoldable pub grant_visibility : ℕ → PrincipalType → ℕ → ℕ → M (Unit {0})
grant_visibility skill type principal by = Grants.create_grant (record {
  skill_id = skill;
  principal_type = type;
  principal_id = principal;
  granted_by = by;
  created_at = 0;
})

unfoldable pub revoke_visibility : ℕ → PrincipalType → ℕ → M (Unit {0})
revoke_visibility skill type principal = Grants.delete_grant skill type principal

pub record SkillWithLatestVersion : Type 0 where
  pub skill : Skill
  pub latest : Option SkillVersion

abbrev pub version_or_none : Result (Option SkillVersion) → Option SkillVersion
version_or_none (ok v) = v
version_or_none (err e) = none

abbrev pub with_latest : Option Skill → M (Option SkillWithLatestVersion)
with_latest none = return none
with_latest (some s) = do
  v ← attempt (Skills.get_latest_version s.id)
  return (some (record { skill = s; latest = version_or_none v }))

unfoldable pub get_skill_with_latest_version : ℕ → M (Option SkillWithLatestVersion)
get_skill_with_latest_version id = do s ← Skills.get_skill id; with_latest s
