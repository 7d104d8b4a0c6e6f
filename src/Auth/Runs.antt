-- ===== src/Auth/Runs.antt =====
-- Sequences of requests about accounts: gateway/internal/httpapi/auth_handler.go.
use one_click_agent.Prelude.{
  ℕ, suc, ◌+◌, Bool, true, false, Option, none, some, List, [], ◌∷◌, find_first, ltb, count_where,
  arith, if◌then◌else◌, ◌==◌, ◌&&◌, ◌++◌,
}
use one_click_agent.Model.{User, RefreshToken}
use one_click_agent.World.{ignore, World, Result, ok, err, next, settled, return, unique_violation}
use one_click_agent.World.Calls.{chosen}
use one_click_agent.World.Cases.{db-elim}
use one_click_agent.Store.Users
use one_click_agent.Store.Tokens
use one_click_agent.Store.Tokens.{is_live, has_hash}
use one_click_agent.Http.Answers.{Answer, okay}
use one_click_agent.Auth.Passwords.{Password, PasswordError, validate_password}
use one_click_agent.Auth.Handlers.{
  AuthDeps, RegisterRequest, handle_register, handle_login, handle_refresh, handle_logout,
  register_fields, register_user, if_free, create_user, registered, new_user, revoke_own,
  logout_with,
}
use one_click_agent.Auth.Live.{IsRotated-later}
use one_click_agent.Auth.Rotation.{
  Rotated, give_tokens-new, handle_login-Rotated, handle_refresh-Rotated, revoke_where-Rotated,
}

-- `later` stands for what else the gateway and its environment do: the clock moves on, identifiers
-- are drawn, and it is chosen anew which calls fail.
pub data Event : Type 0 where
  registers : RegisterRequest → Event
  logs_in : Option ℕ → Password → Event
  refreshes : Option ℕ → Event
  logs_out : ℕ → Option ℕ → Event
  later : ℕ → ℕ → List Bool → Event

registered-Rotated :
    (d : AuthDeps) (r : Result User) (w : World) → Rotated w → Rotated (registered d r w).1
registered-Rotated d (err e) w h = h
registered-Rotated d (ok user) w h = give_tokens-new d true user w h

added-Rotated :
    (d : AuthDeps) (u : User) (b : Bool) (w : World)
    → Rotated w
    → Rotated
        (next
          (settled (
            if b
            then (err unique_violation, w)
            else (ok u, record w { users = w.users ++ u ∷ [] })))
          (registered d)).1
added-Rotated d u true w h = h
added-Rotated d u false w h = registered-Rotated d (ok u) (record w { users = w.users ++ u ∷ [] }) h

create_user-Rotated :
    (d : AuthDeps) (email username : ℕ) (o : Option ℕ) (w : World)
    → Rotated w
    → Rotated (create_user d email username o w).1
unfolding Users.create
create_user-Rotated d email username none w h = h
create_user-Rotated d email username (some password_hash) w h =
    let row = λ (v : World). Users.stamped w.fresh v.now (new_user email username password_hash) in
    let w1 = record w { fresh = suc w.fresh } in
    let h1 = IsRotated-later w.fresh (suc w.fresh) w.tokens (omega arith) h in
    db-elim (λ p. Rotated (next (settled p) (registered d)).1) (λ v. Users.add_user (row v) v) w1
      (λ gs. h1)
      (λ gs.
        added-Rotated d (row w) (ltb 0 (count_where (Users.clashes (row w)) w.users)) (chosen gs w1)
          h1)

if_free-Rotated :
    (d : AuthDeps) (email username : ℕ) (password : Password) (r : Result (Option User)) (w : World)
    → Rotated w
    → Rotated (if_free d email username password r w).1
if_free-Rotated d email username password (err e) w h = h
if_free-Rotated d email username password (ok (some u)) w h = h
if_free-Rotated d email username password (ok none) w h =
    create_user-Rotated d email username (d.hash_password password) w h

register_user-Rotated :
    (d : AuthDeps) (email username : ℕ) (password : Password) (o : Option PasswordError) (w : World)
    → Rotated w
    → Rotated (register_user d email username password o w).1
unfolding Users.get_by_email
register_user-Rotated d email username password (some e) w h = h
register_user-Rotated d email username password none w h =
    db-elim (λ p. Rotated (next (settled p) (if_free d email username password)).1)
      (λ v. (ok (find_first (Users.has_email email) v.users), v)) w (λ gs. h)
      (λ gs.
        if_free-Rotated d email username password (ok (find_first (Users.has_email email) w.users))
          (chosen gs w) h)

register_fields-Rotated :
    (d : AuthDeps) (email username : Option ℕ) (password : Password) (w : World)
    → Rotated w
    → Rotated (register_fields d email username password w).1
register_fields-Rotated d none username password w h = h
register_fields-Rotated d (some email) none password w h = h
register_fields-Rotated d (some email) (some username) [] w h = h
register_fields-Rotated d (some email) (some username) (c ∷ cs) w h =
    register_user-Rotated d email username (c ∷ cs) (validate_password (c ∷ cs)) w h

okay-Rotated :
    (p : Result (Unit {0}) × World)
    → Rotated p.1
    → Rotated (next p (λ _. return {A = Answer (Unit {0})} (okay tt))).1
okay-Rotated (ok u, w) h = h
okay-Rotated (err e, w) h = h

if_own-Rotated :
    (b : Bool) (family : ℕ) (w : World)
    → Rotated w
    → Rotated ((if b then ignore (Tokens.revoke_family family) else return tt) w).1
unfolding Tokens.revoke_family
if_own-Rotated true family w h = revoke_where-Rotated (λ t. (t.family == family) && is_live t) w h
if_own-Rotated false family w h = h

revoke_own-Rotated :
    (user : ℕ) (r : Result (Option RefreshToken)) (w : World)
    → Rotated w
    → Rotated (revoke_own user r w).1
revoke_own-Rotated user (err e) w h = h
revoke_own-Rotated user (ok none) w h = h
revoke_own-Rotated user (ok (some t)) w h =
    if_own-Rotated ((t.user_id == user) && is_live t) t.family w h

logout_with-Rotated :
    (d : AuthDeps) (user : ℕ) (token : Option ℕ) (w : World)
    → Rotated w
    → Rotated (logout_with d user token w).1
unfolding Tokens.get_by_hash Tokens.revoke_all_for_user
logout_with-Rotated d user none w h =
    revoke_where-Rotated (λ t. (t.user_id == user) && is_live t) w h
logout_with-Rotated d user (some token) w h =
    db-elim (λ p. Rotated (next (settled p) (revoke_own user)).1)
      (λ v. (ok (find_first (has_hash (d.hash_token token)) v.tokens), v)) w (λ gs. h)
      (λ gs.
        revoke_own-Rotated user (ok (find_first (has_hash (d.hash_token token)) w.tokens))
          (chosen gs w) h)

handle_logout-Rotated :
    (d : AuthDeps) (user : ℕ) (token : Option ℕ) (w : World)
    → Rotated w
    → Rotated (handle_logout d user token w).1
unfolding handle_logout
handle_logout-Rotated d user token w h =
    okay-Rotated (logout_with d user token w) (logout_with-Rotated d user token w h)

module _ (d : AuthDeps) where
  abbrev pub handle : Event → World → World
  handle (registers q) w = (handle_register d q w).1
  handle (logs_in email password) w = (handle_login d email password w).1
  handle (refreshes token) w = (handle_refresh d token w).1
  handle (logs_out user token) w = (handle_logout d user token w).1
  handle (later time ids faults) w = record w {
    now = w.now + time;
    fresh = w.fresh + ids;
    faults = faults;
  }

  unfoldable pub run : List Event → World → World
  run [] w = w
  run (e ∷ es) w = run es (handle e w)

  handle-Rotated : (e : Event) (w : World) → Rotated w → Rotated (handle e w)
  unfolding handle_register
  handle-Rotated (registers q) w h = register_fields-Rotated d q.email q.username q.password w h
  handle-Rotated (logs_in email password) w h = handle_login-Rotated d email password w h
  handle-Rotated (refreshes token) w h = handle_refresh-Rotated d token w h
  handle-Rotated (logs_out user token) w h = handle_logout-Rotated d user token w h
  handle-Rotated (later time ids faults) w h =
      IsRotated-later w.fresh (w.fresh + ids) w.tokens (omega arith) h

  -- Whatever registrations, logins, refreshes and logouts come in one after the other, with whichever
  -- calls of the database failing: where no family of refresh tokens has more than one live token
  -- and each family was drawn before, the same holds at the end.
  pub run-IsRotated : (es : List Event) (w : World) → Rotated w → Rotated (run es w)
  unfolding run
  run-IsRotated [] w h = h
  run-IsRotated (e ∷ es) w h = run-IsRotated es (handle e w) (handle-Rotated e w h)
