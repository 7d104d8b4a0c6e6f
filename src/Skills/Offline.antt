-- ===== src/Skills/Offline.antt =====
-- Sending a skill to a device that is away: `DispatchToDevice` of
-- gateway/internal/skillvault/dispatch.go.
use one_click_agent.Prelude.{
  ℕ, suc, Bool, true, false, ◌&&◌, Option, none, some, List, [], ◌∷◌, ◌++◌, lookup, ltb, ◌==◌,
  length, count_where, find_first, arith, ◌≡◌, refl, sym, ap, subst, some-injective, Bool-cases,
  inl, inr,
}
use one_click_agent.Model.{
  Bytes, Frame, FrameType, Payload, frame_version, DeviceSkill, is_installed, SkillVersion,
}
use one_click_agent.World.{World, M, Result, ok, err, send_error, db, os, next, ◌>>=◌}
use one_click_agent.Tunnel.Hub.{Hub, offline, send_frame, get_connection}
use one_click_agent.Tunnel.Registry.{in_memory}
use one_click_agent.Pool.Frames.{framed, send, new_frame, sent, millis}
use one_click_agent.Relay.Push.{Schedule}
use one_click_agent.Store.Rows.{update_where}
use one_click_agent.Store.Skills
use one_click_agent.Store.Skills.{
  is_device_skill, upsert_device_skill, overwrite_device_skill, put_device_skill, has_skill,
  is_skill_installed_on_device,
}
use one_click_agent.Skills.Vault.{open_artifact, found}
use one_click_agent.Skills.Dispatch.{
  dispatch_to_device, wanted, send_artifact, dispatch_version, send_chunks, end_dispatch, chunks_of,
  begin_payload,
}

module _ (device skill : ℕ) (version : Bytes) (now : ℕ) where
  abbrev installed_here : DeviceSkill → Bool
  installed_here s = is_device_skill device skill s && is_installed s.status

  overwritten_installed :
      (rows : List DeviceSkill)
      → count_where installed_here (
          update_where
            (is_device_skill device skill)
            (overwrite_device_skill (wanted device skill version) now)
            rows)
        ≡ 0
  unfolding update_where
  overwritten_installed [] = refl
  overwritten_installed (s ∷ rows) = elim (Bool-cases (is_device_skill device skill s)) [
    | inl e ↦ rw (e, e, overwritten_installed rows)
    | inr e ↦ rw (e, e, overwritten_installed rows)
  ]

  appended_installed :
      (rows : List DeviceSkill) (s : DeviceSkill)
      → ltb 0 (count_where (is_device_skill device skill) rows) ≡ false
      → is_installed s.status ≡ false
      → count_where installed_here (rows ++ s ∷ []) ≡ 0
  appended_installed [] s none_here e = ground (arith, e)
  appended_installed (r ∷ rows) s none_here e = ground (arith, none_here, appended_installed rows s)

  -- A skill that is to be installed does not count as installed.
  upserted_installed :
      (rows : List DeviceSkill) (known : Bool)
      → ltb 0 (count_where (is_device_skill device skill) rows) ≡ known
      → count_where installed_here
          (upsert_device_skill known (wanted device skill version) now rows)
        ≡ 0
  upserted_installed rows true e = overwritten_installed rows
  upserted_installed rows false e =
      appended_installed rows
        (record (wanted device skill version) { error_message = none; updated_at = now }) e refl

module _ (encode : Bytes → Bytes) (schedule : Schedule) (device skill version : ℕ)
    (row : SkillVersion) (content : Bytes) where
  frame_away :
      (now : ℕ) (frame : Frame) (h : Hub in_memory)
      → lookup device h.devices ≡ none
      → send_frame now device frame h ≡ (some offline, h)
  unfolding send_frame get_connection
  frame_away now frame h away = rw (send_frame, get_connection, away)

  send-away :
      (frame : Frame) (v : World)
      → lookup device v.hub.devices ≡ none
      → send device frame v ≡ (err send_error, v)
  unfolding send
  send-away frame v away = ap (λ r. sent r v) (frame_away v.now frame v.hub away)

  abbrev begin_frame : Bytes → World → Frame
  begin_frame c v = record {
    version = frame_version;
    type = FrameType.skill_dispatch_begin;
    msg_id = v.fresh;
    ack_id = none;
    ts = millis v.now;
    payload = Payload.skill_begin (begin_payload skill row (length c));
  }

  abbrev after_begin : Bytes → M (Unit {0})
  after_begin c = do
    failed ← send_chunks encode device skill row.id (schedule (chunks_of c)) none
    end_dispatch device skill row.id failed

  opened_away :
      (o : Option Bytes)
      → o ≡ some content
      → (v : World) → lookup device v.hub.devices ≡ none
      → next (found o v) (send_artifact encode schedule device skill row)
        ≡ (err send_error, record v { fresh = suc v.fresh })
  unfolding new_frame framed
  opened_away none e v away = absurd (cc)
  opened_away (some c) e v away =
      ap (λ (r : Result (Unit {0}) × World). next r (λ (_ : Unit {0}). after_begin c))
        (send-away (begin_frame c v) (record v { fresh = suc v.fresh }) away)

  abbrev marked : World → World
  marked w = record w {
    faults = [];
    device_skills =
        upsert_device_skill (ltb 0 (count_where (is_device_skill device skill) w.device_skills))
          (wanted device skill row.version) w.now w.device_skills;
  }

  dispatch_version-away :
      (known : Bool)
      → known ≡ true
      → (w : World) → lookup device w.hub.devices ≡ none
      → lookup row.artifact_uri w.artifacts ≡ some content
      → next
          (put_device_skill known (wanted device skill row.version) (record w { faults = [] }))
          (λ (_ : Unit {0}). open_artifact row >>= send_artifact encode schedule device skill row)
        ≡ (err send_error, record (marked w) { fresh = suc w.fresh })
  unfolding open_artifact os
  dispatch_version-away false e w away present = absurd (cc)
  dispatch_version-away true e w away present =
      opened_away (lookup row.artifact_uri w.artifacts) present (marked w) away

  dispatch-away :
      (o : Option SkillVersion)
      → o ≡ some row
      → (w : World) → has_skill w.skills skill ≡ true
      → lookup device w.hub.devices ≡ none
      → lookup row.artifact_uri w.artifacts ≡ some content
      → dispatch_version encode schedule device skill o (record w { faults = [] })
        ≡ (err send_error, record (marked w) { fresh = suc w.fresh })
  unfolding Skills.set_device_skill db
  dispatch-away none e w known away present = absurd (cc)
  dispatch-away (some v) e w known away present =
      subst
        (λ u.
          dispatch_version encode schedule device skill (some u) (record w { faults = [] })
          ≡ (err send_error, record (marked w) { fresh = suc w.fresh }))
        (sym (some-injective v row e))
        (dispatch_version-away (has_skill w.skills skill) known w away present)

  calm_away :
      (w : World)
      → find_first (λ v. v.id == version) w.skill_versions ≡ some row
      → has_skill w.skills skill ≡ true
      → lookup device w.hub.devices ≡ none
      → lookup row.artifact_uri w.artifacts ≡ some content
      → let end =
          dispatch_to_device encode schedule device skill version (record w { faults = [] }) in
        (end.0 ≡ err send_error) × ((is_skill_installed_on_device device skill end.1).0 ≡ ok false)
  unfolding dispatch_to_device Skills.get_version is_skill_installed_on_device db
  calm_away w version_known known away present =
      subst
        (λ r.
          (r.0 ≡ err send_error) × ((is_skill_installed_on_device device skill r.1).0 ≡ ok false))
        (sym (
          dispatch-away (find_first (λ v. v.id == version) w.skill_versions) version_known w known
            away present))
        (
          refl,
          ap (λ n. ok (ltb 0 n))
              (upserted_installed device skill row.version w.now w.device_skills
                (ltb 0 (count_where (is_device_skill device skill) w.device_skills)) refl),
        )

  -- Where no call of the database or of the operating system fails, sending a known version of a
  -- known skill to a device without a connection is an error, and the skill then counts as not
  -- installed on the device, whether it was installed before or not.
  pub dispatch_to_device-uninstalls :
      (w : World)
      → w.faults ≡ []
      → find_first (λ v. v.id == version) w.skill_versions ≡ some row
      → has_skill w.skills skill ≡ true
      → lookup device w.hub.devices ≡ none
      → lookup row.artifact_uri w.artifacts ≡ some content
      → let end = dispatch_to_device encode schedule device skill version w in
        (end.0 ≡ err send_error) × ((is_skill_installed_on_device device skill end.1).0 ≡ ok false)
  dispatch_to_device-uninstalls w calm version_known known away present =
      subst
        (λ fs.
          let end =
            dispatch_to_device encode schedule device skill version (record w { faults = fs }) in
          (end.0 ≡ err send_error)
          × ((is_skill_installed_on_device device skill end.1).0 ≡ ok false))
        (sym calm) (calm_away w version_known known away present)
