-- ===== src/Skills/Examples.antt =====
-- The properties of skills at concrete inputs.
use mathlib.Core.List.{Memᴰ}
use one_click_agent.Prelude.{
  ◌↔◌, Bool, some, ◌+◌, false, none, List, [], ◌∷◌, length, lookup, ◌≡◌, refl, true,
}
use one_click_agent.Model.{
  Bytes, Skill, SkillVersion, SkillVisibility, PrincipalType, DeviceSkill, SkillInstallStatus,
}
use one_click_agent.World.{World, ok, err, send_error, unique_violation, os_error}
use one_click_agent.Samples.{world_of, empty_hub}
use one_click_agent.Store.Skills.{is_skill_installed_on_device}
use one_click_agent.Store.Grants.{is_skill_visible_to_user, list_visible_skills}
use one_click_agent.Skills.Vault.{
  VaultConfig, new_skill, publish_version, open_artifact, revoke_visibility,
}
use one_click_agent.Skills.Dispatch.{dispatch_to_device}
use one_click_agent.Skills.Republish.{publish_version-loses}
use one_click_agent.Skills.Offline.{dispatch_to_device-uninstalls}
use one_click_agent.Skills.Visibility.{revoke_visibility-hides}
use one_click_agent.Skills.Seen.{MaySee, is_skill_visible_to_user-lists}

abbrev plain_vault : VaultConfig
plain_vault = record {
  path = λ skill version. 900 + skill;
  sha256 = λ content. length content;
  same_key = λ a b. false;
}

abbrev browsing : Skill
browsing = record (new_skill "browse" "Browse" "" SkillVisibility.restricted) { id = 5 }

abbrev first_version : SkillVersion
first_version = record {
  id = 60;
  skill_id = 5;
  version = 49 ∷ [];
  manifest = "";
  artifact_uri = 905;
  sha256 = 2;
  created_at = 10;
}

abbrev on_device : DeviceSkill
on_device = record {
  device_id = 3;
  skill_id = 5;
  version = 49 ∷ [];
  status = SkillInstallStatus.installed;
  installed_by = none;
  error_message = none;
  updated_at = 20;
}

-- A restricted skill with one version, installed on a device that is away and granted to a user.
abbrev published : World
published = record (world_of [] [] empty_hub) {
  skills = browsing ∷ [];
  skill_versions = first_version ∷ [];
  artifacts = (905, 1 ∷ 2 ∷ []) ∷ [];
  device_skills = on_device ∷ [];
  skill_grants =
      record {
        skill_id = 5;
        principal_type = PrincipalType.user;
        principal_id = 7;
        granted_by = 1;
        created_at = 0;
      }
      ∷ [];
}

is_skill_visible_to_user-lists_example :
    (l : List Skill) × (b : Bool) × ((list_visible_skills 7 (some 8) published).0 ≡ ok l)
    × ((is_skill_visible_to_user 5 7 (some 8) published).0 ≡ ok b)
    × ((s : Skill)
        → Memᴰ s l ↔ (Memᴰ s published.skills × MaySee published.skill_grants 7 (some 8) s))
    × ((b ≡ true) ↔ ((s : Skill) × Memᴰ s l × (s.id ≡ 5)))
is_skill_visible_to_user-lists_example = is_skill_visible_to_user-lists 5 7 (some 8) published refl

revoke_visibility-hides_example :
    let w = (revoke_visibility 5 PrincipalType.user 7 published).1 in
    (is_skill_visible_to_user 5 7 none w).0 ≡ ok false
revoke_visibility-hides_example = revoke_visibility-hides 5 7 published refl (refl, tt)

publish_version-loses_example :
    let end = publish_version plain_vault 5 (49 ∷ []) "" (8 ∷ []) published in
    (end.0 ≡ err unique_violation)
    × (end.1.skill_versions ≡ published.skill_versions)
    × ((open_artifact first_version end.1).0 ≡ err os_error)
publish_version-loses_example =
    publish_version-loses plain_vault 5 (49 ∷ []) "" (8 ∷ []) first_version published refl refl refl

dispatch_to_device-uninstalls_example :
    let end = dispatch_to_device (λ content. content) (λ cs. cs) 3 5 60 published in
    (end.0 ≡ err send_error) × ((is_skill_installed_on_device 3 5 end.1).0 ≡ ok false)
unfolding lookup
dispatch_to_device-uninstalls_example =
    dispatch_to_device-uninstalls (λ content. content) (λ cs. cs) 3 5 60 first_version (1 ∷ 2 ∷ [])
      published refl refl refl refl refl

abbrev two_bytes : Bytes
two_bytes = 1 ∷ 2 ∷ []
