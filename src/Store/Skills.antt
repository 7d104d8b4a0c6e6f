-- ===== src/Store/Skills.antt =====
-- `SkillStore`: gateway/internal/store/skills.go, with the constraints of its tables from
-- gateway/migrations. The reference of a device's or an agent's skill to its device or agent, and of
-- a grant to who gave it, are left out.
use Prim.Native.String.{String}
use one_click_agent.Prelude.{
  ℕ, Bool, true, false, not, ◌&&◌, Option, none, List, [], ◌∷◌, ◌++◌, ltb, ◌==◌, find_first,
  count_where, select,
}
use one_click_agent.Model.{
  Bytes, bytes_eq, Skill, SkillVersion, SkillVisibility, SkillInstallStatus, is_installed,
  DeviceSkill, AgentSkill,
}
use one_click_agent.World.{
  World, M, Result, ok, err, unique_violation, foreign_key_violation, db, new_uuid, ◌>>=◌,
}
use one_click_agent.Store.Rows.{update_where, sort_by, first_by}
use one_click_agent.Store.Pages.{list_page}

abbrev pub exec : (World → World) → M (Unit {0})
exec f = db (λ w. (ok tt, f w))

abbrev pub query : {A : Type 0} → (World → A) → M A
query f = db (λ w. (ok (f w), w))

abbrev pub has_id : ℕ → Skill → Bool
has_id id s = s.id == id

abbrev pub has_skill : List Skill → ℕ → Bool
has_skill skills id = ltb 0 (count_where (has_id id) skills)

-- The catalogue. The key is unique; `clash` compares keys.
abbrev pub stamped : ℕ → ℕ → Skill → Skill
stamped id now s = record s { id = id; created_at = now; updated_at = now }

abbrev pub add_skill : Bool → Skill → World → Result Skill × World
add_skill true s w = (err unique_violation, w)
add_skill false s w = (ok s, record w { skills = w.skills ++ s ∷ [] })

unfoldable pub create_skill : (String → String → Bool) → Skill → M Skill
create_skill same s = do
  id ← new_uuid
  db (λ w.
      add_skill (ltb 0 (count_where (λ old. same old.key s.key) w.skills)) (stamped id w.now s) w)

unfoldable pub get_skill : ℕ → M (Option Skill)
get_skill id = query (λ w. find_first (has_id id) w.skills)

unfoldable pub list_skills : Option ℕ → ℕ → M (List Skill × Option ℕ)
list_skills cursor limit =
    query (λ w. list_page (λ s. s.id) (λ s. s.created_at) (λ s. true) cursor limit w.skills)

abbrev pub update_skills : (Skill → Bool) → (ℕ → Skill → Skill) → M (Unit {0})
update_skills p f = exec (λ w. record w { skills = update_where p (f w.now) w.skills })

unfoldable pub set_latest_version : ℕ → Bytes → M (Unit {0})
set_latest_version id version =
    update_skills (has_id id) (λ now s. record s { latest_version = version; updated_at = now })

unfoldable pub update_visibility : ℕ → SkillVisibility → M (Unit {0})
update_visibility id vis =
    update_skills (has_id id) (λ now s. record s { visibility = vis; updated_at = now })

-- Versions, one for each text of a skill's.
abbrev pub is_version : ℕ → Bytes → SkillVersion → Bool
is_version skill version v = (v.skill_id == skill) && bytes_eq v.version version

abbrev pub version_stamped : ℕ → ℕ → SkillVersion → SkillVersion
version_stamped id now v = record v { id = id; created_at = now }

abbrev pub add_known : Bool → SkillVersion → World → Result SkillVersion × World
add_known true v w = (ok v, record w { skill_versions = w.skill_versions ++ v ∷ [] })
add_known false v w = (err foreign_key_violation, w)

abbrev pub add_version : Bool → SkillVersion → World → Result SkillVersion × World
add_version true v w = (err unique_violation, w)
add_version false v w = add_known (has_skill w.skills v.skill_id) v w

unfoldable pub create_version : SkillVersion → M SkillVersion
create_version v = do
  id ← new_uuid
  db (λ w.
      add_version (ltb 0 (count_where (is_version v.skill_id v.version) w.skill_versions))
        (version_stamped id w.now v) w)

unfoldable pub get_version : ℕ → M (Option SkillVersion)
get_version id = query (λ w. find_first (λ v. v.id == id) w.skill_versions)

abbrev pub newer_version : SkillVersion → SkillVersion → Bool
newer_version a b = ltb b.created_at a.created_at

unfoldable pub get_latest_version : ℕ → M (Option SkillVersion)
get_latest_version skill =
    query (λ w. first_by newer_version (select (λ v. v.skill_id == skill) w.skill_versions))

unfoldable pub get_version_by_tag : ℕ → Bytes → M (Option SkillVersion)
get_version_by_tag skill version =
    query (λ w. find_first (is_version skill version) w.skill_versions)

unfoldable pub list_versions : ℕ → M (List SkillVersion)
list_versions skill =
    query (λ w. sort_by newer_version (select (λ v. v.skill_id == skill) w.skill_versions))

-- Where skills are installed.
abbrev pub is_device_skill : ℕ → ℕ → DeviceSkill → Bool
is_device_skill device skill s = (s.device_id == device) && (s.skill_id == skill)

-- ON CONFLICT DO UPDATE: the error message is left as it is.
abbrev pub overwrite_device_skill : DeviceSkill → ℕ → DeviceSkill → DeviceSkill
overwrite_device_skill new now old = record old {
  version = new.version;
  status = new.status;
  installed_by = new.installed_by;
  updated_at = now;
}

abbrev pub upsert_device_skill : Bool → DeviceSkill → ℕ → List DeviceSkill → List DeviceSkill
upsert_device_skill true s now rows =
    update_where (is_device_skill s.device_id s.skill_id) (overwrite_device_skill s now) rows
upsert_device_skill false s now rows =
    rows ++ record s { error_message = none; updated_at = now } ∷ []

abbrev pub put_device_skill : Bool → DeviceSkill → World → Result (Unit {0}) × World
put_device_skill true s w = (
  ok tt,
  record w {
    device_skills =
        upsert_device_skill
          (ltb 0 (count_where (is_device_skill s.device_id s.skill_id) w.device_skills)) s w.now
          w.device_skills;
  },
)
put_device_skill false s w = (err foreign_key_violation, w)

unfoldable pub set_device_skill : DeviceSkill → M (Unit {0})
set_device_skill s = db (λ w. put_device_skill (has_skill w.skills s.skill_id) s w)

unfoldable pub update_device_skill_status : ℕ → ℕ → SkillInstallStatus → M (Unit {0})
update_device_skill_status device skill status = exec (λ w. record w {
  device_skills =
      update_where (is_device_skill device skill)
        (λ s. record s { status = status; updated_at = w.now }) w.device_skills;
})

unfoldable pub get_device_skills : ℕ → M (List DeviceSkill)
get_device_skills device = query (λ w. select (λ s. s.device_id == device) w.device_skills)

unfoldable pub get_device_skills_for_skill : ℕ → M (List DeviceSkill)
get_device_skills_for_skill skill = query (λ w. select (λ s. s.skill_id == skill) w.device_skills)

unfoldable pub delete_device_skill : ℕ → ℕ → M (Unit {0})
delete_device_skill device skill = exec (λ w. record w {
  device_skills = select (λ s. not (is_device_skill device skill s)) w.device_skills;
})

unfoldable pub is_skill_installed_on_device : ℕ → ℕ → M Bool
is_skill_installed_on_device device skill = query (λ w.
    ltb 0
      (count_where (λ s. is_device_skill device skill s && is_installed s.status) w.device_skills))

-- Which agents use a skill.
abbrev pub is_agent_skill : ℕ → ℕ → AgentSkill → Bool
is_agent_skill agent skill s = (s.agent_id == agent) && (s.skill_id == skill)

abbrev pub upsert_agent_skill : Bool → AgentSkill → ℕ → List AgentSkill → List AgentSkill
upsert_agent_skill true s now rows =
    update_where (is_agent_skill s.agent_id s.skill_id)
      (λ old. record old { status = s.status; selected_by = s.selected_by; updated_at = now }) rows
upsert_agent_skill false s now rows = rows ++ record s { updated_at = now } ∷ []

abbrev pub put_agent_skill : Bool → AgentSkill → World → Result (Unit {0}) × World
put_agent_skill true s w = (
  ok tt,
  record w {
    agent_skills =
        upsert_agent_skill
          (ltb 0 (count_where (is_agent_skill s.agent_id s.skill_id) w.agent_skills)) s w.now
          w.agent_skills;
  },
)
put_agent_skill false s w = (err foreign_key_violation, w)

unfoldable pub set_agent_skill : AgentSkill → M (Unit {0})
set_agent_skill s = db (λ w. put_agent_skill (has_skill w.skills s.skill_id) s w)

unfoldable pub get_agent_skills : ℕ → M (List AgentSkill)
get_agent_skills agent = query (λ w. select (λ s. s.agent_id == agent) w.agent_skills)

unfoldable pub delete_agent_skill : ℕ → ℕ → M (Unit {0})
delete_agent_skill agent skill = exec (λ w. record w {
  agent_skills = select (λ s. not (is_agent_skill agent skill s)) w.agent_skills;
})
