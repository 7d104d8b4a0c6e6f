-- ===== src/Store/Tokens.antt =====
-- `TokenStore`: gateway/internal/store/tokens.go, with the reference of `refresh_tokens` to `users`.
use one_click_agent.Prelude.{
  ℕ, true, false, Bool, not, Option, none, some, [], ◌∷◌, ◌++◌, ltb, ◌==◌, ◌&&◌, is_some,
  find_first, count_where, select, true,
}
use one_click_agent.Model.{RefreshToken}
use one_click_agent.World.{World, M, Result, ok, err, foreign_key_violation, db, new_uuid, ◌>>=◌}
use one_click_agent.Store.Rows.{update_where}
use one_click_agent.Store.Users.{has_id}

abbrev pub has_hash : ℕ → RefreshToken → Bool
has_hash h t = t.token_hash == h

abbrev pub is_live : RefreshToken → Bool
is_live t = not (is_some t.revoked_at)

abbrev pub stamped : ℕ → ℕ → RefreshToken → RefreshToken
stamped id now t = record t { id = id; created_at = now }

-- The row: `revoked_at` is no column of the INSERT.
abbrev pub inserted : RefreshToken → RefreshToken
inserted t = record t { revoked_at = none }

abbrev pub add_if : Bool → RefreshToken → World → Result RefreshToken × World
add_if true t w = (ok t, record w { tokens = w.tokens ++ inserted t ∷ [] })
add_if false t w = (err foreign_key_violation, w)

abbrev pub add_token : RefreshToken → World → Result RefreshToken × World
add_token t w = add_if (ltb 0 (count_where (has_id t.user_id) w.users)) t w

unfoldable pub create : RefreshToken → M RefreshToken
create t = do id ← new_uuid; db (λ w. add_token (stamped id w.now t) w)

unfoldable pub get_by_hash : ℕ → M (Option RefreshToken)
get_by_hash h = db (λ w. (ok (find_first (has_hash h) w.tokens), w))

abbrev pub revoked : ℕ → RefreshToken → RefreshToken
revoked now t = record t { revoked_at = some now }

abbrev pub revoke_where : (RefreshToken → Bool) → M (Unit {0})
revoke_where p = db (λ w. (ok tt, record w { tokens = update_where p (revoked w.now) w.tokens }))

unfoldable pub revoke : ℕ → M (Unit {0})
revoke id = revoke_where (λ t. t.id == id)

unfoldable pub revoke_family : ℕ → M (Unit {0})
revoke_family family = revoke_where (λ t. (t.family == family) && is_live t)

unfoldable pub revoke_all_for_user : ℕ → M (Unit {0})
revoke_all_for_user user = revoke_where (λ t. (t.user_id == user) && is_live t)

unfoldable pub delete_expired : M ℕ
delete_expired = db (λ w. (
  ok (count_where (λ t. ltb t.expires_at w.now) w.tokens),
  record w { tokens = select (λ t. not (ltb t.expires_at w.now)) w.tokens },
))
