-- ===== src/Store/Users.antt =====
-- `UserStore`: gateway/internal/store/users.go, with the constraints of the table `users` from
-- gateway/migrations.
use one_click_agent.Prelude.{
  ℕ, Bool, ◌||◌, Option, List, [], ◌∷◌, ◌++◌, ltb, ◌==◌, if◌then◌else◌, find_first, count_where,
  true,
}
use one_click_agent.Model.{User, UserTier}
use one_click_agent.World.{World, M, Result, ok, err, unique_violation, db, new_uuid, ◌>>=◌}
use one_click_agent.Store.Rows.{update_where}
use one_click_agent.Store.Pages.{list_page}

abbrev pub has_id : ℕ → User → Bool
has_id id u = u.id == id

abbrev pub has_email : ℕ → User → Bool
has_email email u = u.email == email

abbrev pub stamped : ℕ → ℕ → User → User
stamped id now u = record u { id = id; created_at = now; updated_at = now }

-- The e-mail address and the name are unique.
abbrev pub clashes : User → User → Bool
clashes new old = (old.email == new.email) || (old.username == new.username)

abbrev pub add_user : User → World → Result User × World
add_user u w =
    if ltb 0 (count_where (clashes u) w.users)
    then (err unique_violation, w)
    else (ok u, record w { users = w.users ++ u ∷ [] })

unfoldable pub create : User → M User
create u = do id ← new_uuid; db (λ w. add_user (stamped id w.now u) w)

unfoldable pub get_by_id : ℕ → M (Option User)
get_by_id id = db (λ w. (ok (find_first (has_id id) w.users), w))

unfoldable pub get_by_email : ℕ → M (Option User)
get_by_email email = db (λ w. (ok (find_first (has_email email) w.users), w))

abbrev pub updated : User → ℕ → User → User
updated new now u = record u {
  email = new.email;
  username = new.username;
  role = new.role;
  tier = new.tier;
  org_id = new.org_id;
  updated_at = now;
}

-- The status is no column of the statement.
unfoldable pub update : User → M (Unit {0})
update new =
    db (λ w. (ok tt, record w { users = update_where (has_id new.id) (updated new w.now) w.users }))

unfoldable pub update_tier : ℕ → UserTier → M (Unit {0})
update_tier id tier = db (λ w. (
  ok tt,
  record w {
    users = update_where (has_id id) (λ u. record u { tier = tier; updated_at = w.now }) w.users;
  },
))

unfoldable pub list : Option ℕ → ℕ → M (List User × Option ℕ)
list cursor limit =
    db (λ w. (ok (list_page (λ u. u.id) (λ u. u.created_at) (λ u. true) cursor limit w.users), w))
