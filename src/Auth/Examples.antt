-- ===== src/Auth/Examples.antt =====
-- Runs of the account handlers: gateway/internal/auth and
-- gateway/internal/httpapi/auth_handler.go.
use one_click_agent.Prelude.{
  ℕ, ◌*◌, ◌/◌, true, false, ◌&&◌, Option, none, some, List, [], ◌∷◌, ◌==◌, ltb, not, is_some,
  if◌then◌else◌, lookup, length, arith, ◌≡◌, ◌≤◌, refl,
}
use one_click_agent.Model.{User, UserStatus, UserRole, UserTier, RefreshToken, second}
use one_click_agent.World.{World, ok}
use one_click_agent.Samples.{world_of, empty_hub}
use one_click_agent.Http.Answers.{refused, Refusal}
use one_click_agent.Auth.Passwords.{Password, validate_password, byte_len}
use one_click_agent.Auth.Strength.{validate_password-accepts}
use one_click_agent.Auth.Jwt.{Claims, Signer, new_jwt_manager, issue_access_token, verify_token}
use one_click_agent.Auth.Keys.{Key, add_keys, verify_token-issue_access_token}
use one_click_agent.Auth.Handlers.{AuthDeps, handle_refresh, use_token}
use one_click_agent.Auth.Live.{alive}
use one_click_agent.Auth.Rotation.{Rotated}
use one_click_agent.Auth.Runs.{Event, logs_in, refreshes, logs_out, later, run, run-IsRotated}
use one_click_agent.Auth.Theft.{handle_refresh-revokes_family}
use one_click_agent.Auth.Overlap.{reply, rotated, use_token-overlap}

-- A token that is what was signed, with the key.
abbrev plain_signer : Signer (ℕ × ℕ × Claims)
plain_signer = record {
  sign = λ kid secret c. (kid, secret, c);
  kid_of = λ t. some (some t.0);
  check = λ secret now t. if (secret == t.1) && ltb now t.2.expires_at then some t.2 else none;
  numeric_date = λ t. t / second * second;
}

check-sign :
    (kid s t : ℕ) (c : Claims)
    → ltb t c.expires_at ≡ true
    → plain_signer.check s t (plain_signer.sign kid s c) ≡ some c
check-sign kid s t c h = ground arith

abbrev number_signer : Signer ℕ
number_signer = record {
  sign = λ kid secret c. c.id;
  kid_of = λ t. some none;
  check = λ secret now t. none;
  numeric_date = λ t. t / second * second;
}

abbrev deps : AuthDeps
deps = record {
  signer = number_signer;
  jwt = new_jwt_manager 1 2 60;
  refresh_ttl = 1000;
  hash_password = λ p. some (length p);
  verify_password = λ p h. some (length p == h);
  hash_token = λ t. t;
}

abbrev ann : User
ann = record {
  id = 7;
  email = 70;
  username = 71;
  password_hash = 3;
  status = UserStatus.active;
  role = UserRole.user;
  tier = UserTier.free;
  org_id = none;
  created_at = 0;
  updated_at = 0;
}

abbrev token_of : ℕ → ℕ → ℕ → Option ℕ → RefreshToken
token_of id hash family revoked_at = record {
  id = id;
  user_id = 7;
  token_hash = hash;
  expires_at = 1000;
  revoked_at = revoked_at;
  family = family;
  created_at = 0;
}

-- A family with a token that was replaced, and one more family.
abbrev signed_in : World
signed_in = record (world_of [] [] empty_hub) {
  users = ann ∷ [];
  tokens = token_of 1 90 30 (some 5) ∷ token_of 2 91 30 none ∷ token_of 3 92 31 none ∷ [];
}

signed_in-IsRotated : Rotated signed_in
signed_in-IsRotated = record {
  single = λ f. ground arith;
  drawn = (omega arith, (omega arith, (omega arith, tt)));
}

-- A login, a refresh, and a logout after the database failed once.
abbrev visit : List Event
visit =
    logs_in (some 70) (1 ∷ 2 ∷ 3 ∷ [])
    ∷ refreshes (some 91)
    ∷ later 10 5 (true ∷ [])
    ∷ refreshes (some 92)
    ∷ logs_out 7 none
    ∷ []

run-IsRotated_example : Rotated (run deps visit signed_in)
run-IsRotated_example = run-IsRotated deps visit signed_in signed_in-IsRotated

handle_refresh-revokes_family_example :
    let r = handle_refresh deps (some 90) signed_in in
    (r.0 ≡ ok (refused Refusal.unauthorized))
    × (alive 30 r.1.tokens ≡ 0)
    × ((g : ℕ) → (30 == g) ≡ false → alive g r.1.tokens ≡ alive g signed_in.tokens)
handle_refresh-revokes_family_example =
    handle_refresh-revokes_family deps 90 (token_of 1 90 30 (some 5)) signed_in refl refl refl

use_token-overlap_example :
    let first = use_token deps 100 (ok (some (token_of 2 91 30 none))) signed_in in
    let second = use_token deps 100 (ok (some (token_of 2 91 30 none))) first.1 in
    (first.0 ≡ ok (reply deps ann signed_in))
    × (second.0 ≡ ok (reply deps ann (rotated deps (token_of 2 91 30 none) ann signed_in)))
    × (alive 30 second.1.tokens ≡ 2)
use_token-overlap_example =
    use_token-overlap deps 91 (token_of 2 91 30 none) ann signed_in refl signed_in-IsRotated refl
      refl (omega arith) refl

-- Six characters, three of them of three bytes each: "Aa0" and three times the sign of the euro.
abbrev short_phrase : Password
short_phrase = 65 ∷ 97 ∷ 48 ∷ 8364 ∷ 8364 ∷ 8364 ∷ []

validate_password-accepts_example :
    (not (is_some (validate_password short_phrase)) ≡ true)
    × ((12 ≤ length short_phrase → 12 ≤ byte_len short_phrase)
        × (12 ≤ byte_len short_phrase → 3 ≤ length short_phrase))
validate_password-accepts_example = validate_password-accepts short_phrase

abbrev newer_keys : List Key
newer_keys = (5, 50, true) ∷ (6, 60, false) ∷ []

-- A lifetime of a minute, issued half a second after a whole one.
verify_token-issue_access_token_example :
    let m = new_jwt_manager 1 2 (60 * second) in
    verify_token plain_signer
      (add_keys newer_keys m)
      (59 * second)
      (issue_access_token plain_signer m ann 9 500000000)
    ≡ some (record {
      subject = ann.id;
      issued_at = 0;
      expires_at = 60 * second;
      id = 9;
      role = ann.role;
      tier = ann.tier;
      org_id = ann.org_id;
    })
unfolding lookup
verify_token-issue_access_token_example =
    verify_token-issue_access_token plain_signer (new_jwt_manager 1 2 (60 * second)) ann 9 500000000
      (59 * second) 2 newer_keys (λ t. refl) (λ kid s c. refl)
      (λ kid s t c _ _ h. check-sign kid s t c (ground arith)) refl (refl, (refl, tt)) (omega arith)
