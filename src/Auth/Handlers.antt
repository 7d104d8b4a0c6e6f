-- ===== src/Auth/Handlers.antt =====
-- The handlers of gateway/internal/httpapi/auth_handler.go, from a decoded request to the answer.
-- Argon2 and SHA-256 are parameters; a random token is drawn from the supply of new identifiers, so
-- that it is like no other. The audit log is not part of the state.
use one_click_agent.Prelude.{
  ℕ, ◌+◌, ◌/◌, Bool, true, false, ◌&&◌, not, Option, none, some, [], ◌∷◌, ltb, ◌==◌, if◌then◌else◌,
}
use one_click_agent.Model.{User, UserStatus, UserRole, UserTier, RefreshToken, second}
use one_click_agent.World.{M, Result, ok, err, return, attempt, ignore, os, new_uuid, ◌>>=◌, ◌>>◌}
use one_click_agent.Store.Users
use one_click_agent.Store.Tokens
use one_click_agent.Store.Tokens.{is_live}
use one_click_agent.Auth.Passwords.{Password, PasswordError, validate_password}
use one_click_agent.Auth.Jwt.{Signer, JwtManager, issue_access_token}
use one_click_agent.Http.Answers.{Answer, created, okay, Refusal, refuse_with}

pub record AuthDeps : Type 0 where
  pub signer : Signer ℕ
  pub jwt : JwtManager
  pub refresh_ttl : ℕ
  pub hash_password : Password → Option ℕ
  pub verify_password : Password → ℕ → Option Bool
  pub hash_token : ℕ → ℕ

-- A text that is absent is the empty one.
pub record RegisterRequest : Type 0 where
  pub email : Option ℕ
  pub username : Option ℕ
  pub password : Password

pub record AuthResponse : Type 0 where
  pub access_token : ℕ
  pub refresh_token : ℕ
  pub expires_in : ℕ
  pub user : User

abbrev pub clock : M ℕ
clock w = (ok w.now, w)

abbrev pub Answered : Type 0
Answered = M (Answer AuthResponse)

abbrev pub answer_user : Bool → AuthResponse → Answer AuthResponse
answer_user true r = created r
answer_user false r = okay r

abbrev pub stored_token : Bool → AuthResponse → Result RefreshToken → Answered
stored_token is_new r (err e) = refuse_with Refusal.internal_error
stored_token is_new r (ok t) = return (answer_user is_new r)

abbrev pub new_refresh_token : AuthDeps → ℕ → ℕ → ℕ → ℕ → RefreshToken
new_refresh_token d user token family now = record {
  id = 0;
  user_id = user;
  token_hash = d.hash_token token;
  expires_at = now + d.refresh_ttl;
  revoked_at = none;
  family = family;
  created_at = 0;
}

abbrev pub response : AuthDeps → ℕ → ℕ → User → AuthResponse
response d access token user = record {
  access_token = access;
  refresh_token = token;
  expires_in = d.jwt.access_ttl / second;
  user = user;
}

-- The new token is stored in the given family.
unfoldable pub store_in : AuthDeps → Bool → User → ℕ → ℕ → ℕ → Answered
store_in d is_new user access token family = do
  now ← clock
  t ← attempt (Tokens.create (new_refresh_token d user.id token family now))
  stored_token is_new (response d access token user) t

-- The family is a new one or that of the token that is replaced.
abbrev pub store_token : AuthDeps → Bool → M ℕ → User → ℕ → Result ℕ → Answered
store_token d is_new family user access (err e) = refuse_with Refusal.internal_error
store_token d is_new family user access (ok token) = do
  f ← family
  store_in d is_new user access token f

unfoldable pub give_tokens : AuthDeps → Bool → M ℕ → User → Answered
give_tokens d is_new family user = do
  id ← new_uuid
  now ← clock
  token ← attempt (os new_uuid)
  store_token d is_new family user (issue_access_token d.signer d.jwt user id now) token

abbrev pub new_user : ℕ → ℕ → ℕ → User
new_user email username password_hash = record {
  id = 0;
  email = email;
  username = username;
  password_hash = password_hash;
  status = UserStatus.active;
  role = UserRole.user;
  tier = UserTier.free;
  org_id = none;
  created_at = 0;
  updated_at = 0;
}

abbrev pub registered : AuthDeps → Result User → Answered
registered d (err e) = refuse_with Refusal.internal_error
registered d (ok user) = give_tokens d true new_uuid user

abbrev pub create_user : AuthDeps → ℕ → ℕ → Option ℕ → Answered
create_user d email username none = refuse_with Refusal.internal_error
create_user d email username (some password_hash) = do
  u ← attempt (Users.create (new_user email username password_hash))
  registered d u

abbrev pub if_free : AuthDeps → ℕ → ℕ → Password → Result (Option User) → Answered
if_free d email username password (err e) = refuse_with Refusal.internal_error
if_free d email username password (ok (some u)) = refuse_with Refusal.conflict
if_free d email username password (ok none) =
    create_user d email username (d.hash_password password)

abbrev pub register_user : AuthDeps → ℕ → ℕ → Password → Option PasswordError → Answered
register_user d email username password (some e) = refuse_with Refusal.validation_failed
register_user d email username password none = do
  existing ← attempt (Users.get_by_email email)
  if_free d email username password existing

abbrev pub register_fields : AuthDeps → Option ℕ → Option ℕ → Password → Answered
register_fields d none username password = refuse_with Refusal.validation_failed
register_fields d (some email) none password = refuse_with Refusal.validation_failed
register_fields d (some email) (some username) [] = refuse_with Refusal.validation_failed
register_fields d (some email) (some username) (c ∷ cs) =
    register_user d email username (c ∷ cs) (validate_password (c ∷ cs))

unfoldable pub handle_register : AuthDeps → RegisterRequest → Answered
handle_register d q = register_fields d q.email q.username q.password

abbrev pub if_match : AuthDeps → User → Option Bool → Answered
if_match d user (some true) = give_tokens d false new_uuid user
if_match d user (some false) = refuse_with Refusal.unauthorized
if_match d user none = refuse_with Refusal.unauthorized

abbrev pub login_found : AuthDeps → Password → Result (Option User) → Answered
login_found d password (err e) = refuse_with Refusal.internal_error
login_found d password (ok none) = refuse_with Refusal.unauthorized
login_found d password (ok (some user)) =
    if_match d user (d.verify_password password user.password_hash)

abbrev pub login_fields : AuthDeps → Option ℕ → Password → Answered
login_fields d none password = refuse_with Refusal.validation_failed
login_fields d (some email) [] = refuse_with Refusal.validation_failed
login_fields d (some email) (c ∷ cs) = do
  user ← attempt (Users.get_by_email email)
  login_found d (c ∷ cs) user

unfoldable pub handle_login : AuthDeps → Option ℕ → Password → Answered
handle_login d email password = login_fields d email password

abbrev pub is_usable : ℕ → RefreshToken → Bool
is_usable now t = is_live t && not (ltb t.expires_at now)

abbrev pub refreshed : AuthDeps → RefreshToken → Result (Option User) → Answered
refreshed d t (err e) = refuse_with Refusal.unauthorized
refreshed d t (ok none) = refuse_with Refusal.unauthorized
refreshed d t (ok (some user)) = give_tokens d false (return t.family) user

abbrev pub if_revoked : AuthDeps → RefreshToken → Result (Unit {0}) → Answered
if_revoked d t (err e) = refuse_with Refusal.internal_error
if_revoked d t (ok _) = do user ← attempt (Users.get_by_id t.user_id); refreshed d t user

-- The token is replaced by a new one of its family.
unfoldable pub rotate : AuthDeps → RefreshToken → Answered
rotate d t = do r ← attempt (Tokens.revoke t.id); if_revoked d t r

-- A token that is revoked or expired takes its whole family with it.
unfoldable pub reject_token : RefreshToken → Answered
reject_token t = do ignore (Tokens.revoke_family t.family); refuse_with Refusal.unauthorized

abbrev pub use_token : AuthDeps → ℕ → Result (Option RefreshToken) → Answered
use_token d now (err e) = refuse_with Refusal.internal_error
use_token d now (ok none) = refuse_with Refusal.unauthorized
use_token d now (ok (some t)) = if is_usable now t then rotate d t else reject_token t

abbrev pub refresh_with : AuthDeps → Option ℕ → Answered
refresh_with d none = refuse_with Refusal.validation_failed
refresh_with d (some token) = do
  t ← attempt (Tokens.get_by_hash (d.hash_token token))
  now ← clock
  use_token d now t

unfoldable pub handle_refresh : AuthDeps → Option ℕ → Answered
handle_refresh d token = refresh_with d token

abbrev pub revoke_own : ℕ → Result (Option RefreshToken) → M (Unit {0})
revoke_own user (err e) = return tt
revoke_own user (ok none) = return tt
revoke_own user (ok (some t)) =
    if (t.user_id == user) && is_live t then ignore (Tokens.revoke_family t.family) else return tt

abbrev pub logout_with : AuthDeps → ℕ → Option ℕ → M (Unit {0})
logout_with d user none = ignore (Tokens.revoke_all_for_user user)
logout_with d user (some token) = do
  t ← attempt (Tokens.get_by_hash (d.hash_token token))
  revoke_own user t

unfoldable pub handle_logout : AuthDeps → ℕ → Option ℕ → M (Answer (Unit {0}))
handle_logout d user token = do logout_with d user token; return (okay tt)

abbrev pub show_user : Result (Option User) → M (Answer User)
show_user (ok (some user)) = return (okay user)
show_user (ok none) = refuse_with Refusal.not_found
show_user (err e) = refuse_with Refusal.not_found

unfoldable pub handle_me : ℕ → M (Answer User)
handle_me user = do u ← attempt (Users.get_by_id user); show_user u
