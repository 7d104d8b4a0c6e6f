-- ===== src/Skills/Seen.antt =====
-- Which skills a user may see, and the visibility queries of gateway/internal/store/skills.go.
use mathlib.Core.List.{Memᴰ}
use one_click_agent.Prelude.{
  ℕ, Bool, true, ◌&&◌, Option, none, some, List, [], ltb, ◌==◌, count_where, select, arith, ◌≡◌,
  refl, sym, ap, ◌∙◌, subst, Bool-cases, inl, inr, ==_self, ◌↔◌, some-injective,
}
use one_click_agent.Model.{
  Skill, SkillGrant, SkillVisibility, PrincipalType, is_public, same_principal,
}
use one_click_agent.World.{World, ok, db}
use one_click_agent.Store.Rows.{sort_by}
use one_click_agent.Store.Listed.{
  member_count, count_member, select_member, sort_by_member, member_sort_by,
}
use one_click_agent.Store.Members.{Mem-select}
use one_click_agent.Store.Skills.{has_id}
use one_click_agent.Store.Grants.{
  is_grant, is_granted, counts_with_org, counts_alone, lists_with_org, lists_alone, newest_first,
  is_skill_visible_to_user, list_visible_skills,
}

-- Who may see a skill: everyone a public one, and otherwise who holds a grant, the user alone or
-- through the organisation.
pub data MaySee (grants : List SkillGrant) (user : ℕ) (org : Option ℕ) (s : Skill) : Type 0 where
  everyone : s.visibility ≡ SkillVisibility.public → MaySee grants user org s
  user_grant :
      (g : SkillGrant)
      → Memᴰ g grants
      → g.skill_id ≡ s.id
      → g.principal_type ≡ PrincipalType.user
      → g.principal_id ≡ user
      → MaySee grants user org s
  org_grant :
      (o : ℕ) (g : SkillGrant)
      → org ≡ some o
      → Memᴰ g grants
      → g.skill_id ≡ s.id
      → g.principal_type ≡ PrincipalType.org
      → g.principal_id ≡ o
      → MaySee grants user org s

public_iff : (v : SkillVisibility) → is_public v ≡ true → v ≡ SkillVisibility.public
public_iff SkillVisibility.public h = refl
public_iff SkillVisibility.restricted h = absurd (cc)
public_iff (SkillVisibility.other_visibility t) h = absurd (cc)

same_principal_iff : (t u : PrincipalType) → same_principal t u ≡ true → t ≡ u
same_principal_iff PrincipalType.user PrincipalType.user h = refl
same_principal_iff PrincipalType.org PrincipalType.org h = refl
same_principal_iff PrincipalType.user PrincipalType.org h = absurd (cc)
same_principal_iff PrincipalType.org PrincipalType.user h = absurd (cc)

same_principal_self : (t : PrincipalType) → same_principal t t ≡ true
same_principal_self PrincipalType.user = refl
same_principal_self PrincipalType.org = refl

is_grant-fields :
    (skill principal : ℕ) (t : PrincipalType) (g : SkillGrant)
    → is_grant skill t principal g ≡ true
    → (g.skill_id ≡ skill) × (g.principal_type ≡ t) × (g.principal_id ≡ principal)
is_grant-fields skill principal t g h =
    (ground (arith), same_principal_iff g.principal_type t (ground (arith)), ground (arith))

is_granted-member :
    (grants : List SkillGrant) (skill principal : ℕ) (t : PrincipalType)
    → is_granted grants skill t principal ≡ true
    → (g : SkillGrant) × Memᴰ g grants
      × (g.skill_id ≡ skill)
      × (g.principal_type ≡ t)
      × (g.principal_id ≡ principal)
is_granted-member grants skill principal t h =
    let (g, m, e) = count_member (is_grant skill t principal) grants h in
    let f = is_grant-fields skill principal t g e in (g, m, f.0, f.1, f.2)

member-is_granted :
    (grants : List SkillGrant) (skill principal : ℕ) (t : PrincipalType) (g : SkillGrant)
    → Memᴰ g grants
    → g.skill_id ≡ skill
    → g.principal_type ≡ t
    → g.principal_id ≡ principal
    → is_granted grants skill t principal ≡ true
member-is_granted grants skill principal t g m a b c =
    member_count (is_grant skill t principal) g grants m
      (rw (a, b, c, same_principal_self t, ==_self skill, ==_self principal) refl)

module _ (grants : List SkillGrant) (user : ℕ) where
  lists_alone-MaySee : (s : Skill) → lists_alone grants user s ≡ true → MaySee grants user none s
  lists_alone-MaySee s h = elim (Bool-cases (is_public s.visibility)) [
    | inl e ↦ MaySee.everyone (public_iff s.visibility e)
    | inr e ↦
        let granted : is_granted grants s.id PrincipalType.user user ≡ true = ground (arith) in
        let (g, m, a, b, c) = is_granted-member grants s.id user PrincipalType.user granted in
        MaySee.user_grant g m a b c
  ]

  MaySee-lists_alone : (s : Skill) → MaySee grants user none s → lists_alone grants user s ≡ true
  MaySee-lists_alone s (MaySee.everyone e) = rw e refl
  MaySee-lists_alone s (MaySee.user_grant g m a b c) =
      let granted = member-is_granted grants s.id user PrincipalType.user g m a b c in
      ground (arith, granted)
  MaySee-lists_alone s (MaySee.org_grant o g same m a b c) = absurd (cc)

  lists_with_org-MaySee :
      (org : ℕ) (s : Skill)
      → lists_with_org grants user org s ≡ true
      → MaySee grants user (some org) s
  lists_with_org-MaySee org s h = elim (Bool-cases (is_public s.visibility)) [
    | inl e ↦ MaySee.everyone (public_iff s.visibility e)
    | inr e ↦ elim (Bool-cases (is_granted grants s.id PrincipalType.user user)) [
      | inl e' ↦
          let (g, m, a, b, c) = is_granted-member grants s.id user PrincipalType.user e' in
          MaySee.user_grant g m a b c
      | inr e' ↦
          let granted : is_granted grants s.id PrincipalType.org org ≡ true = ground (arith) in
          let (g, m, a, b, c) = is_granted-member grants s.id org PrincipalType.org granted in
          MaySee.org_grant org g refl m a b c
    ]
  ]

  MaySee-lists_with_org :
      (org : ℕ) (s : Skill)
      → MaySee grants user (some org) s
      → lists_with_org grants user org s ≡ true
  MaySee-lists_with_org org s (MaySee.everyone e) = rw e refl
  MaySee-lists_with_org org s (MaySee.user_grant g m a b c) =
      let granted = member-is_granted grants s.id user PrincipalType.user g m a b c in
      ground (arith, granted)
  MaySee-lists_with_org org s (MaySee.org_grant o g same m a b c) =
      let granted =
        member-is_granted grants s.id org PrincipalType.org g m a b
          (c ∙ sym (some-injective org o same)) in
      ground (arith, granted)

-- A query that lists the rows by a condition, and one that counts by it and the id.
module _ (P : Skill → Type 0) (shows : Skill → Bool) (skill : ℕ) (skills : List Skill) where
  listed_iff :
      ((s : Skill) → shows s ≡ true → P s)
      → ((s : Skill) → P s → shows s ≡ true)
      → (s : Skill) → Memᴰ s (sort_by newest_first (select shows skills)) ↔ (Memᴰ s skills × P s)
  listed_iff sound complete s = (
    λ m.
        let kept =
          select_member shows s skills (member_sort_by newest_first s (select shows skills) m) in
        (kept.0, sound s kept.1),
    λ h.
        sort_by_member newest_first s (select shows skills)
          (Mem-select shows s skills h.0 (complete s h.1)),
  )

  counted_iff :
      (counts : Skill → Bool)
      → ((s : Skill) → counts s ≡ (has_id skill s && shows s))
      → (ltb 0 (count_where counts skills) ≡ true)
        ↔ ((s : Skill) × Memᴰ s (sort_by newest_first (select shows skills)) × (s.id ≡ skill))
  counted_iff counts same = (
    λ h.
        let (s, m, e) = count_member counts skills h in
        let both = sym (same s) ∙ e in
        (
          s,
          sort_by_member newest_first s (select shows skills)
              (Mem-select shows s skills m (ground (arith, both))),
          ground (arith, both),
        ),
    λ h.
        let (s, m, e) = h in
        let kept =
          select_member shows s skills (member_sort_by newest_first s (select shows skills) m) in
        let found : has_id skill s ≡ true = ap (λ i. i == skill) e ∙ ==_self skill in
        member_count counts s skills kept.0 (same s ∙ rw (found, kept.1) refl),
  )

seen_calm :
    (skill user : ℕ) (org : Option ℕ) (w : World)
    → let w' = record w { faults = [] } in
      (l : List Skill) × (b : Bool) × ((list_visible_skills user org w').0 ≡ ok l)
      × ((is_skill_visible_to_user skill user org w').0 ≡ ok b)
      × ((s : Skill) → Memᴰ s l ↔ (Memᴰ s w.skills × MaySee w.skill_grants user org s))
      × ((b ≡ true) ↔ ((s : Skill) × Memᴰ s l × (s.id ≡ skill)))
unfolding list_visible_skills is_skill_visible_to_user db
seen_calm skill user none w =
    let shows : Skill → Bool = lists_alone w.skill_grants user in
    let P : Skill → Type 0 = MaySee w.skill_grants user none in
    (
      sort_by newest_first (select shows w.skills),
      ltb 0 (count_where (counts_alone w.skill_grants skill user) w.skills),
      refl,
      refl,
      listed_iff P shows skill w.skills (lists_alone-MaySee w.skill_grants user)
          (MaySee-lists_alone w.skill_grants user),
      counted_iff P shows skill w.skills (counts_alone w.skill_grants skill user) (λ s. refl),
    )
seen_calm skill user (some org) w =
    let shows : Skill → Bool = lists_with_org w.skill_grants user org in
    let P : Skill → Type 0 = MaySee w.skill_grants user (some org) in
    (
      sort_by newest_first (select shows w.skills),
      ltb 0 (count_where (counts_with_org w.skill_grants skill user org) w.skills),
      refl,
      refl,
      listed_iff P shows skill w.skills (lists_with_org-MaySee w.skill_grants user org)
          (MaySee-lists_with_org w.skill_grants user org),
      counted_iff P shows skill w.skills (counts_with_org w.skill_grants skill user org)
          (λ s. refl),
    )

-- Where no call of the database fails, the visible skills are listed without failure: the rows
-- that are public or granted to the user or to their organisation, and no others. The check of
-- one skill succeeds too, and answers yes exactly where the list has a row with its id.
pub is_skill_visible_to_user-lists :
    (skill user : ℕ) (org : Option ℕ) (w : World)
    → w.faults ≡ []
    → (l : List Skill) × (b : Bool) × ((list_visible_skills user org w).0 ≡ ok l)
      × ((is_skill_visible_to_user skill user org w).0 ≡ ok b)
      × ((s : Skill) → Memᴰ s l ↔ (Memᴰ s w.skills × MaySee w.skill_grants user org s))
      × ((b ≡ true) ↔ ((s : Skill) × Memᴰ s l × (s.id ≡ skill)))
is_skill_visible_to_user-lists skill user org w calm =
    subst
      (λ fs.
        let w' = record w { faults = fs } in
        (l : List Skill) × (b : Bool) × ((list_visible_skills user org w').0 ≡ ok l)
        × ((is_skill_visible_to_user skill user org w').0 ≡ ok b)
        × ((s : Skill) → Memᴰ s l ↔ (Memᴰ s w.skills × MaySee w.skill_grants user org s))
        × ((b ≡ true) ↔ ((s : Skill) × Memᴰ s l × (s.id ≡ skill))))
      (sym calm) (seen_calm skill user org w)
