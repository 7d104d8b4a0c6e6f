-- ===== src/Auth/Jwt.antt =====
-- `JWTManager` of gateway/internal/auth/jwt.go. Signing and checking are the library's, a parameter;
-- key ids and secrets are numbers.
use one_click_agent.Prelude.{
  ℕ, ◌+◌, Bool, Option, none, some, [], ◌∷◌, Dict, lookup, insert, if◌then◌else◌,
}
use one_click_agent.Model.{User, UserRole, UserTier}

pub record Claims : Type 0 where
  pub subject : ℕ
  pub issued_at : ℕ
  pub expires_at : ℕ
  pub id : ℕ
  pub role : UserRole
  pub tier : UserTier
  pub org_id : Option ℕ

-- The library: `sign` with a key id in the header and a secret, `kid_of` the header of an unchecked
-- token (`none` where it cannot be parsed; the inner option is the key id, if there is one), and
-- `check` with a secret at an instant. `numeric_date` is the date that a token holds for an instant.
pub record Signer (T : Type 0) : Type 0 where
  pub sign : ℕ → ℕ → Claims → T
  pub kid_of : T → Option (Option ℕ)
  pub check : ℕ → ℕ → T → Option Claims
  pub numeric_date : ℕ → ℕ

pub record JwtManager : Type 0 where
  pub keys : Dict ℕ
  pub active_kid : ℕ
  pub access_ttl : ℕ

abbrev pub new_jwt_manager : ℕ → ℕ → ℕ → JwtManager
new_jwt_manager kid secret ttl = record {
  keys = (kid, secret) ∷ [];
  active_kid = kid;
  access_ttl = ttl;
}

abbrev pub add_key : ℕ → ℕ → Bool → JwtManager → JwtManager
add_key kid secret make_active m = record m {
  keys = insert kid secret m.keys;
  active_kid = if make_active then kid else m.active_kid;
}

-- A missing key is the empty secret, 0.
abbrev pub secret_of : Option ℕ → ℕ
secret_of none = 0
secret_of (some s) = s

abbrev pub claims_of : (ℕ → ℕ) → ℕ → User → ℕ → ℕ → Claims
claims_of numeric_date ttl user id now = record {
  subject = user.id;
  issued_at = numeric_date now;
  expires_at = numeric_date (now + ttl);
  id = id;
  role = user.role;
  tier = user.tier;
  org_id = user.org_id;
}

unfoldable pub issue_access_token : {T : Type 0} → Signer T → JwtManager → User → ℕ → ℕ → T
issue_access_token l m user id now =
    l.sign m.active_kid (secret_of (lookup m.active_kid m.keys))
      (claims_of l.numeric_date m.access_ttl user id now)

-- Any key, where the active one is missing.
abbrev pub any_key : Dict ℕ → Option ℕ
any_key [] = none
any_key ((k, secret) ∷ d) = some secret

abbrev pub or_else : Option ℕ → Option ℕ → Option ℕ
or_else none other = other
or_else (some s) other = some s

abbrev pub named_key : Option ℕ → Dict ℕ → Option ℕ
named_key none keys = none
named_key (some kid) keys = lookup kid keys

abbrev pub key_for : JwtManager → Option ℕ → Option ℕ
key_for m kid =
    or_else (named_key kid m.keys) (or_else (lookup m.active_kid m.keys) (any_key m.keys))

abbrev pub check_with : {T : Type 0} → Signer T → ℕ → T → Option ℕ → Option Claims
check_with l now token none = none
check_with l now token (some secret) = l.check secret now token

abbrev pub check_header :
    {T : Type 0} → Signer T → JwtManager → ℕ → T → Option (Option ℕ) → Option Claims
check_header l m now token none = none
check_header l m now token (some kid) = check_with l now token (key_for m kid)

unfoldable pub verify_token : {T : Type 0} → Signer T → JwtManager → ℕ → T → Option Claims
verify_token l m now token = check_header l m now token (l.kid_of token)
