-- ===== src/Store/Grants.antt =====
-- Who may see a skill: the grants and the visibility queries of
-- gateway/internal/store/skills.go, and the deletion of a skill.
use one_click_agent.Prelude.{
  ℕ, Bool, true, false, not, ◌&&◌, ◌||◌, Option, none, some, List, [], ◌∷◌, ◌++◌, ltb, ◌==◌,
  count_where, select, is_some_eq,
}
use one_click_agent.Model.{Skill, is_public, SkillGrant, PrincipalType, same_principal}
use one_click_agent.World.{World, M, Result, ok, err, foreign_key_violation, db}
use one_click_agent.Store.Rows.{sort_by}
use one_click_agent.Store.Skills.{exec, query, has_id, has_skill}

abbrev pub is_grant : ℕ → PrincipalType → ℕ → SkillGrant → Bool
is_grant skill type principal g =
    (g.skill_id == skill) && same_principal g.principal_type type && (g.principal_id == principal)

abbrev pub is_granted : List SkillGrant → ℕ → PrincipalType → ℕ → Bool
is_granted grants skill type principal = ltb 0 (count_where (is_grant skill type principal) grants)

-- ON CONFLICT DO NOTHING.
abbrev pub add_grant : Bool → SkillGrant → List SkillGrant → List SkillGrant
add_grant true g grants = grants
add_grant false g grants = grants ++ g ∷ []

abbrev pub put_grant : Bool → SkillGrant → World → Result (Unit {0}) × World
put_grant true g w = (
  ok tt,
  record w {
    skill_grants =
        add_grant (is_granted w.skill_grants g.skill_id g.principal_type g.principal_id)
          (record g { created_at = w.now }) w.skill_grants;
  },
)
put_grant false g w = (err foreign_key_violation, w)

unfoldable pub create_grant : SkillGrant → M (Unit {0})
create_grant g = db (λ w. put_grant (has_skill w.skills g.skill_id) g w)

unfoldable pub delete_grant : ℕ → PrincipalType → ℕ → M (Unit {0})
delete_grant skill type principal = exec (λ w. record w {
  skill_grants = select (λ g. not (is_grant skill type principal g)) w.skill_grants;
})

unfoldable pub list_grants : ℕ → M (List SkillGrant)
list_grants skill = query (λ w. select (λ g. g.skill_id == skill) w.skill_grants)

-- The queries are written four times over, with an organisation and without one; so are their
-- conditions on a row here. The id of a skill is unique, so that DISTINCT changes nothing.
abbrev pub counts_with_org : List SkillGrant → ℕ → ℕ → ℕ → Skill → Bool
counts_with_org grants skill user org s =
    has_id skill s
    && (is_public s.visibility
        || is_granted grants s.id PrincipalType.user user
        || is_granted grants s.id PrincipalType.org org)

abbrev pub counts_alone : List SkillGrant → ℕ → ℕ → Skill → Bool
counts_alone grants skill user s =
    has_id skill s && (is_public s.visibility || is_granted grants s.id PrincipalType.user user)

unfoldable pub is_skill_visible_to_user : ℕ → ℕ → Option ℕ → M Bool
is_skill_visible_to_user skill user (some org) =
    query (λ w. ltb 0 (count_where (counts_with_org w.skill_grants skill user org) w.skills))
is_skill_visible_to_user skill user none =
    query (λ w. ltb 0 (count_where (counts_alone w.skill_grants skill user) w.skills))

abbrev pub lists_with_org : List SkillGrant → ℕ → ℕ → Skill → Bool
lists_with_org grants user org s =
    is_public s.visibility
    || is_granted grants s.id PrincipalType.user user
    || is_granted grants s.id PrincipalType.org org

abbrev pub lists_alone : List SkillGrant → ℕ → Skill → Bool
lists_alone grants user s = is_public s.visibility || is_granted grants s.id PrincipalType.user user

abbrev pub newest_first : Skill → Skill → Bool
newest_first a b = ltb b.created_at a.created_at

unfoldable pub list_visible_skills : ℕ → Option ℕ → M (List Skill)
list_visible_skills user (some org) =
    query (λ w. sort_by newest_first (select (lists_with_org w.skill_grants user org) w.skills))
list_visible_skills user none =
    query (λ w. sort_by newest_first (select (lists_alone w.skill_grants user) w.skills))

-- A row that refers to the skill keeps it; its versions go with it.
abbrev pub is_referred : ℕ → World → Bool
is_referred id w =
    ltb 0 (count_where (λ j. is_some_eq j.skill_id id) w.jobs)
    || ltb 0 (count_where (λ s. s.skill_id == id) w.device_skills)
    || ltb 0 (count_where (λ s. s.skill_id == id) w.agent_skills)
    || ltb 0 (count_where (λ g. g.skill_id == id) w.skill_grants)

abbrev pub remove_skill : Bool → ℕ → World → Result (Unit {0}) × World
remove_skill true id w = (err foreign_key_violation, w)
remove_skill false id w = (
  ok tt,
  record w {
    skills = select (λ s. not (has_id id s)) w.skills;
    skill_versions = select (λ v. not (v.skill_id == id)) w.skill_versions;
  },
)

unfoldable pub delete_skill : ℕ → M (Unit {0})
delete_skill id = db (λ w. remove_skill (is_referred id w) id w)
