-- ===== src/Auth/Keys.antt =====
-- Signing keys that are replaced: gateway/internal/auth/jwt.go.
use one_click_agent.Prelude.{
  ℕ, ◌+◌, ◌*◌, ◌/◌, ◌%◌, ◌<◌, Bool, false, some, List, [], ◌∷◌, lookup, lookup-insert, ◌==◌, All,
  arith, ◌≡◌, ap, ◌∙◌,
}
use one_click_agent.Model.{User, second}
use one_click_agent.Auth.Jwt.{
  Claims, Signer, JwtManager, add_key, claims_of, issue_access_token, verify_token, check_with,
  check_header, secret_of, or_else, any_key,
}

-- A key id, its secret, and whether new tokens are signed with it.
abbrev pub Key : Type 0
Key = ℕ × ℕ × Bool

unfoldable pub add_keys : List Key → JwtManager → JwtManager
add_keys [] m = m
add_keys ((kid, secret, active) ∷ keys) m = add_keys keys (add_key kid secret active m)

add_keys-keeps :
    (kid secret : ℕ) (keys : List Key) (m : JwtManager)
    → lookup kid m.keys ≡ some secret
    → All (λ k. (k.0 == kid) ≡ false) keys
    → lookup kid (add_keys keys m).keys ≡ some secret
unfolding add_keys
add_keys-keeps kid secret [] m here others = here
add_keys-keeps kid secret ((k, s, active) ∷ keys) m here others =
    add_keys-keeps kid secret keys (add_key k s active m)
      (ground (arith, lookup-insert k kid s m.keys)) others.1

module _ {T : Type 0} (l : Signer T) (m : JwtManager) (user : User) (id now later secret : ℕ)
    (keys : List Key) where
  -- Where the library cuts dates to whole seconds, reads back the key id of what it signs, and
  -- accepts with the secret it signed with, before they expire, claims whose dates are whole seconds:
  -- a token that was issued under the active key is accepted before the last whole second of its
  -- lifetime, with the user's claims and their dates in whole seconds, whatever keys were added or
  -- made active since, unless one of them replaced the key under its id.
  pub verify_token-issue_access_token :
      ((t : ℕ) → l.numeric_date t ≡ t / second * second)
      → ((kid s : ℕ) (c : Claims) → l.kid_of (l.sign kid s c) ≡ some (some kid))
      → ((kid s t : ℕ) (c : Claims)
          → c.issued_at % second ≡ 0
          → c.expires_at % second ≡ 0
          → t < c.expires_at
          → l.check s t (l.sign kid s c) ≡ some c)
      → lookup m.active_kid m.keys ≡ some secret
      → All (λ k. (k.0 == m.active_kid) ≡ false) keys
      → later < (now + m.access_ttl) / second * second
      → verify_token l (add_keys keys m) later (issue_access_token l m user id now)
        ≡ some (record {
          subject = user.id;
          issued_at = now / second * second;
          expires_at = (now + m.access_ttl) / second * second;
          id = id;
          role = user.role;
          tier = user.tier;
          org_id = user.org_id;
        })
  unfolding verify_token issue_access_token
  verify_token-issue_access_token cuts header accepts active others fresh =
      let claims = claims_of l.numeric_date m.access_ttl user id now in
      let token = l.sign m.active_kid (secret_of (lookup m.active_kid m.keys)) claims in
      let m' = add_keys keys m in
      let kept = add_keys-keeps m.active_kid secret keys m active others in
      let issued : claims.issued_at % second ≡ 0 = omega (arith, cuts now) in
      let ends : claims.expires_at % second ≡ 0 = omega (arith, cuts (now + m.access_ttl)) in
      let in_time : later < claims.expires_at = omega (arith, cuts (now + m.access_ttl)) in
      ap (check_header l m' later token)
        (header m.active_kid (secret_of (lookup m.active_kid m.keys)) claims)
      ∙ ap
          (λ o.
            check_with l later token
              (or_else o (or_else (lookup m'.active_kid m'.keys) (any_key m'.keys))))
          kept
      ∙ ap (λ o. l.check secret later (l.sign m.active_kid (secret_of o) claims)) active
      ∙ accepts m.active_kid secret later claims issued ends in_time
      ∙ ap
          (λ d.
            some
              (record claims { issued_at = d; expires_at = l.numeric_date (now + m.access_ttl) }))
          (cuts now)
      ∙ ap (λ d. some (record claims { issued_at = now / second * second; expires_at = d }))
          (cuts (now + m.access_ttl))
