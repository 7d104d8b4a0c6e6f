-- ===== src/Skills/Republish.antt =====
-- Publishing a version again: `PublishVersion` of gateway/internal/skillvault/vault.go.
use Prim.Native.String.{String}
use one_click_agent.Prelude.{
  ℕ, Bool, true, false, none, [], Dict, lookup, suc, insert, erase, lookup-erase, ltb, count_where,
  arith, ◌≡◌, refl, sym, ap, ◌∙◌, subst,
}
use one_click_agent.Model.{Bytes, SkillVersion}
use one_click_agent.World.{World, err, os_error, unique_violation, db, os}
use one_click_agent.Store.Skills
use one_click_agent.Store.Skills.{is_version, add_version, version_stamped}
use one_click_agent.Skills.Vault.{
  VaultConfig, publish_version, open_artifact, new_version, create_artifact, copy_artifact,
  remove_artifact, version_created, found,
}

module _ (v : VaultConfig) (skill : ℕ) (version : Bytes) (manifest : String) (content : Bytes)
    (old : SkillVersion) where
  -- A row that is refused takes the file with it.
  refused :
      (b : Bool)
      → b ≡ true
      → old.artifact_uri ≡ v.path skill version
      → (row : SkillVersion) → (w : World)
      → let x = record w { faults = [] } in
        let r = add_version b row x in
        let end = version_created (v.path skill version) skill version r.0 r.1 in
        (end.0 ≡ err unique_violation)
        × (end.1.skill_versions ≡ w.skill_versions)
        × ((open_artifact old end.1).0 ≡ err os_error)
  unfolding remove_artifact open_artifact os
  refused false taken path row w = absurd (cc)
  refused true taken path row w = (
    refl,
    refl,
    ap
        (λ o.
          (found o
            (record w { faults = []; artifacts = erase (v.path skill version) w.artifacts })).0)
        (erased old.artifact_uri path w.artifacts),
  )
    where
      erased :
          (uri : ℕ)
          → uri ≡ v.path skill version
          → (files : Dict Bytes) → lookup uri (erase (v.path skill version) files) ≡ none
      erased uri e files = lookup-erase (v.path skill version) uri files ∙ ground (arith, e)

  republish_calm :
      (w : World)
      → ltb 0 (count_where (is_version skill version) w.skill_versions) ≡ true
      → old.artifact_uri ≡ v.path skill version
      → let end = publish_version v skill version manifest content (record w { faults = [] }) in
        (end.0 ≡ err unique_violation)
        × (end.1.skill_versions ≡ w.skill_versions)
        × ((open_artifact old end.1).0 ≡ err os_error)
  unfolding publish_version create_artifact copy_artifact Skills.create_version db os
  republish_calm w taken path =
      refused (ltb 0 (count_where (is_version skill version) w.skill_versions)) taken path
        (version_stamped w.fresh w.now (new_version v skill version manifest content))
        (record w {
          fresh = suc w.fresh;
          artifacts =
              insert (v.path skill version) content (insert (v.path skill version) [] w.artifacts);
        })

  -- Where no call fails, publishing a version that exists is refused, the versions stay as they
  -- are, and the artifact of the version that exists, which has the same path, is gone.
  pub publish_version-loses :
      (w : World)
      → w.faults ≡ []
      → ltb 0 (count_where (is_version skill version) w.skill_versions) ≡ true
      → old.artifact_uri ≡ v.path skill version
      → let end = publish_version v skill version manifest content w in
        (end.0 ≡ err unique_violation)
        × (end.1.skill_versions ≡ w.skill_versions)
        × ((open_artifact old end.1).0 ≡ err os_error)
  publish_version-loses w calm taken path =
      subst
        (λ fs.
          let end = publish_version v skill version manifest content (record w { faults = fs }) in
          (end.0 ≡ err unique_violation)
          × (end.1.skill_versions ≡ w.skill_versions)
          × ((open_artifact old end.1).0 ≡ err os_error))
        (sym calm) (republish_calm w taken path)
