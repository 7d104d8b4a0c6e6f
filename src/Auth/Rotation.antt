-- ===== src/Auth/Rotation.antt =====
-- What each request does to the families of refresh tokens:
-- gateway/internal/httpapi/auth_handler.go.
use one_click_agent.Prelude.{
  All-find_first, Bool-cases, inl, inr, ◌==◌, ◌&&◌, find_first, Option, none, some, ℕ, suc, ◌≤◌,
  ◌<◌, Bool, true, false, List, ltb, count_where, arith, ◌≡◌, refl, ◌∷◌, [],
}
use one_click_agent.Model.{RefreshToken, User}
use one_click_agent.World.{
  ignore, db_error, World, M, Result, ok, err, next, settled, new_uuid, return,
}
use one_click_agent.World.Calls.{chosen}
use one_click_agent.World.Cases.{db-elim, os-elim}
use one_click_agent.Store.Users
use one_click_agent.Store.Tokens
use one_click_agent.Store.Tokens.{
  revoked, has_hash, is_live, revoke_where, add_token, add_if, stamped, inserted,
}
use one_click_agent.Http.Answers.{refuse_with, Refusal}
use one_click_agent.Auth.Passwords.{Password}
use one_click_agent.Auth.Handlers.{
  AuthResponse, is_usable, refreshed, if_revoked, rotate, reject_token, use_token, handle_refresh,
  if_match, login_found, handle_login, AuthDeps, store_in, store_token, give_tokens,
  new_refresh_token, stored_token, response,
}
use one_click_agent.Store.Rows.{update_where}
use one_click_agent.Auth.Jwt.{issue_access_token}
use one_click_agent.Auth.Live.{
  alive-revoked_row, IsRotated-revoked, alive, IsRotated, drawn_later, IsRotated-later,
  IsRotated-added, alive-new,
}

abbrev pub Rotated : World → Type 0
Rotated w = IsRotated w.tokens w.fresh

stored_token-Rotated :
    (is_new : Bool) (d : AuthDeps) (access token : ℕ) (user : User) (r : Result RefreshToken)
    (w : World)
    → Rotated w
    → Rotated (stored_token is_new (response d access token user) r w).1
stored_token-Rotated is_new d access token user (ok t) w h = h
stored_token-Rotated is_new d access token user (err e) w h = h

settled-Rotated :
    {A B : Type 0} (p : Result A × World) (f : Result A → M B)
    → ((r : Result A) (v : World) → Rotated v → Rotated (f r v).1)
    → Rotated p.1
    → Rotated (next (settled p) f).1
settled-Rotated (r, v) f keep h = keep r v h

add_token-Rotated :
    (b : Bool) (t : RefreshToken) (w : World)
    → t.family < w.fresh
    → alive t.family w.tokens ≡ 0
    → Rotated w
    → Rotated (add_if b t w).1
add_token-Rotated true t w before none_live h =
    IsRotated-added (inserted t) w.tokens w.fresh before none_live h
add_token-Rotated false t w before none_live h = h

pub store_in-Rotated :
    (d : AuthDeps) (is_new : Bool) (user : User) (access token family : ℕ) (w : World)
    → family < w.fresh
    → alive family w.tokens ≡ 0
    → Rotated w
    → Rotated (store_in d is_new user access token family w).1
unfolding store_in Tokens.create
store_in-Rotated d is_new user access token family w before none_live h =
    let row =
      λ (v : World). stamped w.fresh v.now (new_refresh_token d user.id token family w.now) in
    let later = IsRotated-later w.fresh (suc w.fresh) w.tokens (omega arith) h in
    let answer = stored_token is_new (response d access token user) in
    let keep = stored_token-Rotated is_new d access token user in
    let drawn = λ (gs : List Bool). chosen gs (record w { fresh = suc w.fresh }) in
    db-elim (λ p. Rotated (next (settled p) answer).1) (λ v. add_token (row v) v)
      (record w { fresh = suc w.fresh }) (λ gs. later)
      (λ gs. settled-Rotated (add_token (row (drawn gs)) (drawn gs)) answer keep (
        add_token-Rotated (ltb 0 (count_where (Users.has_id user.id) w.users)) (row (drawn gs))
          (drawn gs) (omega arith) none_live later))

-- A login or a registration: the family is new.
pub give_tokens-new :
    (d : AuthDeps) (is_new : Bool) (user : User) (w : World)
    → Rotated w
    → Rotated (give_tokens d is_new new_uuid user w).1
unfolding give_tokens
give_tokens-new d is_new user w h =
    let w1 = record w { fresh = suc w.fresh } in
    let access = issue_access_token d.signer d.jwt user w.fresh w.now in
    let later = λ (n : ℕ) (le : w.fresh ≤ n). IsRotated-later w.fresh n w.tokens le h in
    os-elim (λ p. Rotated (next (settled p) (store_token d is_new new_uuid user access)).1) new_uuid
      w1 (λ gs. later (suc w.fresh) (omega arith))
      (λ gs.
        store_in-Rotated d is_new user access (suc w.fresh) (suc (suc w.fresh))
          (record w1 { fresh = suc (suc (suc w.fresh)); faults = gs }) (omega arith)
          (alive-new (suc (suc w.fresh)) w.tokens
            (drawn_later w.fresh (suc (suc w.fresh)) w.tokens (omega arith) h.drawn))
          (later (suc (suc (suc w.fresh))) (omega arith)))

-- A rotation: the family has no live token.
pub give_tokens-old :
    (d : AuthDeps) (family : ℕ) (user : User) (w : World)
    → family < w.fresh
    → alive family w.tokens ≡ 0
    → Rotated w
    → Rotated (give_tokens d false (return family) user w).1
unfolding give_tokens
give_tokens-old d family user w before none_live h =
    let w1 = record w { fresh = suc w.fresh } in
    let access = issue_access_token d.signer d.jwt user w.fresh w.now in
    let later = λ (n : ℕ) (le : w.fresh ≤ n). IsRotated-later w.fresh n w.tokens le h in
    os-elim (λ p. Rotated (next (settled p) (store_token d false (return family) user access)).1)
      new_uuid w1 (λ gs. later (suc w.fresh) (omega arith))
      (λ gs.
        store_in-Rotated d false user access (suc w.fresh) family
          (record w1 { fresh = suc (suc w.fresh); faults = gs }) (omega arith) none_live
          (later (suc (suc w.fresh)) (omega arith)))

refreshed-Rotated :
    (d : AuthDeps) (t : RefreshToken) (r : Result (Option User)) (w : World)
    → t.family < w.fresh
    → alive t.family w.tokens ≡ 0
    → Rotated w
    → Rotated (refreshed d t r w).1
refreshed-Rotated d t (err e) w before none_live h = h
refreshed-Rotated d t (ok none) w before none_live h = h
refreshed-Rotated d t (ok (some user)) w before none_live h =
    give_tokens-old d t.family user w before none_live h

if_revoked-Rotated :
    (d : AuthDeps) (t : RefreshToken) (w : World)
    → t.family < w.fresh
    → alive t.family w.tokens ≡ 0
    → Rotated w
    → Rotated (if_revoked d t (ok tt) w).1
unfolding Users.get_by_id
if_revoked-Rotated d t w before none_live h =
    db-elim (λ p. Rotated (next (settled p) (refreshed d t)).1)
      (λ v. (ok (find_first (Users.has_id t.user_id) v.users), v)) w
      (λ gs. refreshed-Rotated d t (err db_error) (chosen gs w) before none_live h)
      (λ gs.
        refreshed-Rotated d t (ok (find_first (Users.has_id t.user_id) w.users)) (chosen gs w)
          before none_live h)

-- The token that was found by its hash, live, is replaced.
pub rotate-Rotated :
    (d : AuthDeps) (hash : ℕ) (t : RefreshToken) (w : World)
    → find_first (has_hash hash) w.tokens ≡ some t
    → is_live t ≡ true
    → Rotated w
    → Rotated (rotate d t w).1
unfolding rotate Tokens.revoke
rotate-Rotated d hash t w found live h =
    let ts = update_where (λ s. s.id == t.id) (revoked w.now) w.tokens in
    let before =
      All-find_first (λ s. s.family < w.fresh) (has_hash hash) w.tokens t h.drawn found in
    let fewer = alive-revoked_row hash w.now t w.tokens found live in
    let one = h.single t.family in
    db-elim (λ p. Rotated (next (settled p) (if_revoked d t)).1)
      (λ v.
        (ok tt, record v { tokens = update_where (λ s. s.id == t.id) (revoked v.now) v.tokens }))
      w (λ gs. h)
      (λ gs.
        if_revoked-Rotated d t (record w { tokens = ts; faults = gs }) before (omega arith)
          (IsRotated-revoked w.now w.fresh (λ s. s.id == t.id) w.tokens h))

pub revoke_where-Rotated :
    (p : RefreshToken → Bool) (w : World) → Rotated w → Rotated (ignore (revoke_where p) w).1
revoke_where-Rotated p w h =
    db-elim (λ r. Rotated (next (settled r) (λ _. return tt)).1)
      (λ v. (ok tt, record v { tokens = update_where p (revoked v.now) v.tokens })) w (λ gs. h)
      (λ gs. IsRotated-revoked w.now w.fresh p w.tokens h)

reject_token-Rotated : (t : RefreshToken) (w : World) → Rotated w → Rotated (reject_token t w).1
unfolding reject_token Tokens.revoke_family
reject_token-Rotated t w h =
    db-elim
      (λ r.
        Rotated
          (next (next (settled r) (λ _. return tt))
            (λ _. refuse_with {A = AuthResponse} Refusal.unauthorized)).1)
      (λ v. (
        ok tt,
        record v {
          tokens = update_where (λ s. (s.family == t.family) && is_live s) (revoked v.now) v.tokens;
        },
      ))
      w (λ gs. h)
      (λ gs. IsRotated-revoked w.now w.fresh (λ s. (s.family == t.family) && is_live s) w.tokens h)

use_token-Rotated :
    (d : AuthDeps) (hash : ℕ) (o : Option RefreshToken) (w : World)
    → find_first (has_hash hash) w.tokens ≡ o
    → Rotated w
    → Rotated (use_token d w.now (ok o) w).1
use_token-Rotated d hash none w found h = h
use_token-Rotated d hash (some t) w found h = elim (Bool-cases (is_usable w.now t)) [
  | inl usable ↦ rw usable (rotate-Rotated d hash t w found (ground arith) h)
  | inr spent ↦ rw spent (reject_token-Rotated t w h)
]

pub handle_refresh-Rotated :
    (d : AuthDeps) (token : Option ℕ) (w : World) → Rotated w → Rotated (handle_refresh d token w).1
unfolding handle_refresh Tokens.get_by_hash
handle_refresh-Rotated d none w h = h
handle_refresh-Rotated d (some token) w h =
    db-elim (λ p. Rotated (next (settled p) (λ t v. use_token d v.now t v)).1)
      (λ v. (ok (find_first (has_hash (d.hash_token token)) v.tokens), v)) w (λ gs. h)
      (λ gs.
        use_token-Rotated d (d.hash_token token)
          (find_first (has_hash (d.hash_token token)) w.tokens) (chosen gs w) refl h)

if_match-Rotated :
    (d : AuthDeps) (user : User) (o : Option Bool) (w : World)
    → Rotated w
    → Rotated (if_match d user o w).1
if_match-Rotated d user none w h = h
if_match-Rotated d user (some true) w h = give_tokens-new d false user w h
if_match-Rotated d user (some false) w h = h

login_found-Rotated :
    (d : AuthDeps) (password : Password) (r : Result (Option User)) (w : World)
    → Rotated w
    → Rotated (login_found d password r w).1
login_found-Rotated d password (err e) w h = h
login_found-Rotated d password (ok none) w h = h
login_found-Rotated d password (ok (some user)) w h =
    if_match-Rotated d user (d.verify_password password user.password_hash) w h

pub handle_login-Rotated :
    (d : AuthDeps) (email : Option ℕ) (password : Password) (w : World)
    → Rotated w
    → Rotated (handle_login d email password w).1
unfolding handle_login Users.get_by_email
handle_login-Rotated d none password w h = h
handle_login-Rotated d (some email) [] w h = h
handle_login-Rotated d (some email) (c ∷ cs) w h =
    db-elim (λ p. Rotated (next (settled p) (login_found d (c ∷ cs))).1)
      (λ v. (ok (find_first (Users.has_email email) v.users), v)) w (λ gs. h)
      (λ gs.
        login_found-Rotated d (c ∷ cs) (ok (find_first (Users.has_email email) w.users))
          (chosen gs w) h)
