-- ===== src/Skills/Visibility.antt =====
-- Who sees which skill: the queries of gateway/internal/store/skills.go and the grants of
-- gateway/internal/skillvault/vault.go.
use one_click_agent.Prelude.{
  ℕ, Bool, false, ◌&&◌, not, none, List, [], ◌∷◌, ltb, ◌==◌, count_where, select, All, arith, ◌≡◌,
  refl, sym, ap, ◌∙◌, subst, Bool-cases, inl, inr,
}
use one_click_agent.Model.{Skill, SkillGrant, PrincipalType, is_public}
use one_click_agent.World.{World, ok, db}
use one_click_agent.Store.Skills.{has_id}
use one_click_agent.Store.Grants.{
  is_grant, is_granted, counts_alone, is_skill_visible_to_user, delete_grant,
}
use one_click_agent.Skills.Vault.{revoke_visibility}

count-rejected :
    {A : Type 0} (p : A → Bool) (xs : List A) → count_where p (select (λ x. not (p x)) xs) ≡ 0
count-rejected p [] = refl
count-rejected p (x ∷ xs) = ground (arith, count-rejected p xs)

module _ (skill user : ℕ) (w : World) where
  hidden_row :
      (grants : List SkillGrant) (s : Skill)
      → is_granted grants skill PrincipalType.user user ≡ false
      → has_id skill s && is_public s.visibility ≡ false
      → counts_alone grants skill user s ≡ false
  hidden_row grants s ungranted h = elim (Bool-cases (s.id == skill)) [
    | inl same ↦
        let found : s.id ≡ skill = ground (arith, same) in
        let granted : is_granted grants s.id PrincipalType.user user ≡ false =
          ap (λ i. is_granted grants i PrincipalType.user user) found ∙ ungranted in
        ground (arith, granted, h)
    | inr other ↦ ground (arith, other)
  ]

  restricted_hidden :
      (grants : List SkillGrant) (skills : List Skill)
      → is_granted grants skill PrincipalType.user user ≡ false
      → All (λ s. has_id skill s && is_public s.visibility ≡ false) skills
      → count_where (λ s. counts_alone grants skill user s) skills ≡ 0
  restricted_hidden grants [] ungranted h = refl
  restricted_hidden grants (s ∷ skills) ungranted h =
      rw (hidden_row grants s ungranted h.0, restricted_hidden grants skills ungranted h.1)

  revoked_calm :
      All (λ s. has_id skill s && is_public s.visibility ≡ false) w.skills
      → let w' = (revoke_visibility skill PrincipalType.user user (record w { faults = [] })).1 in
        (is_skill_visible_to_user skill user none w').0 ≡ ok false
  unfolding revoke_visibility delete_grant is_skill_visible_to_user db
  revoked_calm h =
      let left = select (λ g. not (is_grant skill PrincipalType.user user g)) w.skill_grants in
      ap (λ n. ok (ltb 0 n))
        (restricted_hidden left w.skills
          (ap (λ n. ltb 0 n)
            (count-rejected (is_grant skill PrincipalType.user user) w.skill_grants))
          h)

  -- Where no call of the database fails and no skill with the id is public, a user without an
  -- organisation does not see the skill once the grant to them is revoked.
  pub revoke_visibility-hides :
      w.faults ≡ []
      → All (λ s. has_id skill s && is_public s.visibility ≡ false) w.skills
      → let w' = (revoke_visibility skill PrincipalType.user user w).1 in
        (is_skill_visible_to_user skill user none w').0 ≡ ok false
  revoke_visibility-hides calm =
      subst
        (λ fs.
          All (λ s. has_id skill s && is_public s.visibility ≡ false) w.skills
          → let w' =
              (revoke_visibility skill PrincipalType.user user (record w { faults = fs })).1 in
            (is_skill_visible_to_user skill user none w').0 ≡ ok false)
        (sym calm) revoked_calm
