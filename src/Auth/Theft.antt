-- ===== src/Auth/Theft.antt =====
-- A refresh token that is used again: `handleRefresh` of
-- gateway/internal/httpapi/auth_handler.go.
use one_click_agent.Prelude.{
  ◌∙◌, ℕ, false, some, List, [], ◌∷◌, ◌==◌, find_first, arith, ◌≡◌, refl, subst, sym, ap, ◌∙◌,
}
use one_click_agent.Model.{RefreshToken}
use one_click_agent.World.{World, ok, db}
use one_click_agent.Store.Tokens
use one_click_agent.Store.Tokens.{is_live, revoked, has_hash}
use one_click_agent.Store.Rows.{update_where}
use one_click_agent.Http.Answers.{refused, Refusal}
use one_click_agent.Auth.Handlers.{AuthDeps, handle_refresh, is_usable, use_token, reject_token}
use one_click_agent.Auth.Live.{alive, live_in, alive-revoked_family}

-- Revoking a family leaves the other families as they are.
alive-revoked_other :
    (f g now : ℕ) (ts : List RefreshToken)
    → (f == g) ≡ false
    → alive g (update_where (live_in f) (revoked now) ts) ≡ alive g ts
unfolding update_where
alive-revoked_other f g now [] other = refl
alive-revoked_other f g now (t ∷ ts) other = ground (arith, alive-revoked_other f g now ts other)

rejected :
    (d : AuthDeps) (t : RefreshToken) (w : World)
    → is_usable w.now t ≡ false
    → use_token d w.now (ok (some t)) (record w { faults = [] }) ≡ (
      ok (refused Refusal.unauthorized),
      record w { faults = []; tokens = update_where (live_in t.family) (revoked w.now) w.tokens },
    )
unfolding reject_token Tokens.revoke_family db
rejected d t w spent = rw spent refl

module _ (d : AuthDeps) (token : ℕ) (t : RefreshToken) (w : World) where
  handle_refresh-rejected :
      find_first (has_hash (d.hash_token token)) w.tokens ≡ some t
      → is_usable w.now t ≡ false
      → handle_refresh d (some token) (record w { faults = [] }) ≡ (
        ok (refused Refusal.unauthorized),
        record w { faults = []; tokens = update_where (live_in t.family) (revoked w.now) w.tokens },
      )
  unfolding handle_refresh Tokens.get_by_hash db
  handle_refresh-rejected found spent =
      ap (λ o. use_token d w.now (ok o) (record w { faults = [] })) found ∙ rejected d t w spent

  -- Where no call of the environment fails and the token is known, but was replaced or revoked
  -- before, or has expired: it is refused, no token of its family is live any more, the one that
  -- replaced it included, and the other families have as many live tokens as before.
  pub handle_refresh-revokes_family :
      w.faults ≡ []
      → find_first (has_hash (d.hash_token token)) w.tokens ≡ some t
      → is_usable w.now t ≡ false
      → let r = handle_refresh d (some token) w in
        (r.0 ≡ ok (refused Refusal.unauthorized))
        × (alive t.family r.1.tokens ≡ 0)
        × ((g : ℕ) → (t.family == g) ≡ false → alive g r.1.tokens ≡ alive g w.tokens)
  handle_refresh-revokes_family calm found spent =
      let after = update_where (live_in t.family) (revoked w.now) w.tokens in
      let e : handle_refresh d (some token) w
          ≡ (ok (refused Refusal.unauthorized), record w { faults = []; tokens = after }) =
        subst
          (λ fs.
            handle_refresh d (some token) (record w { faults = fs })
            ≡ (ok (refused Refusal.unauthorized), record w { faults = []; tokens = after }))
          (sym calm) (handle_refresh-rejected found spent) in
      (
        ap (λ r. r.0) e,
        ap (λ r. alive t.family r.1.tokens) e ∙ alive-revoked_family t.family w.now w.tokens,
        λ g other.
            ap (λ r. alive g r.1.tokens) e ∙ alive-revoked_other t.family g w.now w.tokens other,
      )
