-- ===== src/Skills/State.antt =====
-- What a device reports about a skill: `UpdateDeviceSkillState` of
-- gateway/internal/skillvault/dispatch.go.
use one_click_agent.Prelude.{
  ℕ, Bool, true, false, Option, none, some, List, [], ◌∷◌, ◌++◌, ltb, count_where, find_first,
  arith, ◌≡◌, refl, sym, ◌∙◌, subst, Bool-cases, inl, inr, ◌≢◌,
}
use one_click_agent.Model.{
  AgentSkill, AgentSkillStatus, SkillInstallStatus, SkillScope, SkillStatePayload,
}
use one_click_agent.World.{World, db}
use one_click_agent.Store.Rows.{update_where}
use one_click_agent.Store.Skills
use one_click_agent.Store.Skills.{
  is_agent_skill, upsert_agent_skill, has_skill, set_agent_skill, put_agent_skill,
}
use one_click_agent.Skills.Dispatch.{update_device_skill_state, agent_status}

module _ {A : Type 0} (p : A → Bool) where
  -- A row that an update found is found again, updated.
  find_first-update_where :
      (f : A → A) (xs : List A)
      → ((x : A) → p x ≡ true → p (f x) ≡ true)
      → ltb 0 (count_where p xs) ≡ true
      → (x : A) × (find_first p (update_where p f xs) ≡ some (f x))
  unfolding update_where
  find_first-update_where f [] keep h = absurd (cc)
  find_first-update_where f (x ∷ xs) keep h = elim (Bool-cases (p x)) [
    | inl e ↦ (x, rw (e, keep x e))
    | inr e ↦ skipped e (find_first-update_where f xs keep (sym (rw e) ∙ h))
  ]
    where
      skipped :
          p x ≡ false
          → (y : A) × (find_first p (update_where p f xs) ≡ some (f y))
          → (y : A) × (find_first p (update_where p f (x ∷ xs)) ≡ some (f y))
      skipped e (y, found) = (y, rw (e, e, found))

  find_first-append :
      (xs : List A) (x : A)
      → ltb 0 (count_where p xs) ≡ false
      → p x ≡ true
      → find_first p (xs ++ x ∷ []) ≡ some x
  find_first-append [] x h e = rw e
  find_first-append (y ∷ xs) x h e = elim (Bool-cases (p y)) [
    | inl f ↦ ground (arith, f, h)
    | inr f ↦ rw (f, find_first-append xs x (sym (rw f) ∙ h) e)
  ]

module _ (s : AgentSkill) (now : ℕ) (rows : List AgentSkill) where
  -- The row of an agent's skill after it was set.
  upserted :
      (known : Bool)
      → ltb 0 (count_where (is_agent_skill s.agent_id s.skill_id) rows) ≡ known
      → (row : AgentSkill) × (find_first
            (is_agent_skill s.agent_id s.skill_id)
            (upsert_agent_skill known s now rows)
          ≡ some row)
        × (row.status ≡ s.status)
  upserted true h = overwritten (
      find_first-update_where (is_agent_skill s.agent_id s.skill_id)
        (λ old. record old { status = s.status; selected_by = s.selected_by; updated_at = now })
        rows (λ old e. e) h)
    where
      overwritten :
          (old : AgentSkill) × (find_first
                (is_agent_skill s.agent_id s.skill_id)
                (upsert_agent_skill true s now rows)
              ≡ some
                  (record old { status = s.status; selected_by = s.selected_by; updated_at = now }))
          → (row : AgentSkill) × (find_first
                (is_agent_skill s.agent_id s.skill_id)
                (upsert_agent_skill true s now rows)
              ≡ some row)
            × (row.status ≡ s.status)
      overwritten (old, found) = (
        record old { status = s.status; selected_by = s.selected_by; updated_at = now },
        found,
        refl,
      )
  upserted false h = (
    record s { updated_at = now },
    find_first-append (is_agent_skill s.agent_id s.skill_id) rows (record s { updated_at = now }) h
        (ground (arith)),
    refl,
  )

-- Only one status does not enable.
agent_status-enabled :
    (st : SkillInstallStatus)
    → st ≢ SkillInstallStatus.disabled
    → agent_status st ≡ AgentSkillStatus.enabled
agent_status-enabled SkillInstallStatus.disabled h = absurd (h refl)
agent_status-enabled _ h = refl

-- The row that says whether an agent uses a skill.
abbrev pub agent_skill : ℕ → ℕ → World → Option AgentSkill
agent_skill agent skill w = find_first (is_agent_skill agent skill) w.agent_skills

-- What an agent's device says of a skill.
abbrev pub agent_report : ℕ → SkillStatePayload → SkillStatePayload
agent_report agent p = record p { scope = SkillScope.agent; agent_id = some agent }

module _ (device agent : ℕ) (p : SkillStatePayload) (w : World) where
  abbrev reported_to : World → World
  reported_to v = (update_device_skill_state device (agent_report agent p) v).1

  put_enabled :
      (known : Bool)
      → known ≡ true
      → (s : AgentSkill) → (v : World)
      → (row : AgentSkill) × (agent_skill s.agent_id s.skill_id (put_agent_skill known s v).1
          ≡ some row)
        × (row.status ≡ s.status)
  put_enabled true known s v =
      upserted s v.now v.agent_skills
        (ltb 0 (count_where (is_agent_skill s.agent_id s.skill_id) v.agent_skills)) refl
  put_enabled false known s v = absurd (cc)

  enabled_calm :
      has_skill w.skills p.skill_id ≡ true
      → (row : AgentSkill) × (agent_skill agent p.skill_id (reported_to (record w { faults = [] }))
          ≡ some row)
        × (row.status ≡ agent_status p.status)
  unfolding update_device_skill_state Skills.set_agent_skill db
  enabled_calm known =
      put_enabled (has_skill w.skills p.skill_id) known
        (record {
          agent_id = agent;
          skill_id = p.skill_id;
          status = agent_status p.status;
          selected_by = none;
          updated_at = 0;
        })
        (record w { faults = [] })

  -- Where no call of the database fails and the skill exists, a device's report about a skill of an
  -- agent leaves a row of the agent that is enabled, whatever the reported status is but
  -- `disabled`: one of an error, too.
  pub update_device_skill_state-enables :
      w.faults ≡ []
      → has_skill w.skills p.skill_id ≡ true
      → p.status ≢ SkillInstallStatus.disabled
      → (row : AgentSkill) × (agent_skill agent p.skill_id
            (update_device_skill_state device (agent_report agent p) w).1
          ≡ some row)
        × (row.status ≡ AgentSkillStatus.enabled)
  update_device_skill_state-enables calm known other =
      subst
        (λ st.
          (row : AgentSkill) × (agent_skill agent p.skill_id (reported_to w) ≡ some row)
          × (row.status ≡ st))
        (agent_status-enabled p.status other)
        (subst
          (λ fs.
            (row : AgentSkill) × (agent_skill agent p.skill_id
                (reported_to (record w { faults = fs }))
              ≡ some row)
            × (row.status ≡ agent_status p.status))
          (sym calm) (enabled_calm known))
