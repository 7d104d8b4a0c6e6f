-- ===== src/Auth/Overlap.antt =====
-- Two refreshes that overlap: `handleRefresh` of gateway/internal/httpapi/auth_handler.go reads the
-- token in one statement and revokes it in another, which asks for the id alone.
use one_click_agent.Prelude.{
  find_first-passes, ◌<◌, ◌+◌, subst, ap, sym, ◌∙◌, arith, false, ℕ, suc, true, some, List, [], ◌∷◌,
  ◌++◌, ◌==◌, ltb, find_first, count_where, ◌≡◌, refl, Bool, if◌then◌else◌,
}
use one_click_agent.Model.{RefreshToken, User}
use one_click_agent.World.{World, ok, db, os}
use one_click_agent.Store.Users
use one_click_agent.Store.Tokens
use one_click_agent.Store.Tokens.{is_live, has_hash, revoked, add_if}
use one_click_agent.Store.Rows.{update_where}
use one_click_agent.Http.Answers.{Answer, okay}
use one_click_agent.Auth.Live.{
  alive-revoked_row, alive-append, alive-revoked_le, IsRotated, live_in, alive,
}
use one_click_agent.Auth.Jwt.{issue_access_token}
use one_click_agent.Auth.Handlers.{
  use_token, is_usable, AuthDeps, AuthResponse, response, new_refresh_token, rotate, give_tokens,
  store_in,
}

-- The row that a rotation adds, and the state after it.
abbrev pub replacement : AuthDeps → RefreshToken → User → World → RefreshToken
replacement d t user w = record (new_refresh_token d user.id (suc w.fresh) t.family w.now) {
  id = suc (suc w.fresh);
  created_at = w.now;
}

abbrev pub rotated : AuthDeps → RefreshToken → User → World → World
rotated d t user w = record w {
  faults = [];
  fresh = suc (suc (suc w.fresh));
  tokens = update_where (λ s. s.id == t.id) (revoked w.now) w.tokens ++ replacement d t user w ∷ [];
}

-- What is answered.
abbrev pub reply : AuthDeps → User → World → Answer AuthResponse
reply d user w =
    okay (response d (issue_access_token d.signer d.jwt user w.fresh w.now) (suc w.fresh) user)

count-found :
    (user : ℕ) (u : User) (us : List User)
    → find_first (Users.has_id user) us ≡ some u
    → (u.id == user) ≡ true
    → ltb 0 (count_where (Users.has_id u.id) us) ≡ true
count-found user u [] found same = cc
count-found user u (x ∷ us) found same = ground (arith, count-found user u us)

rotate-calm :
    (d : AuthDeps) (t : RefreshToken) (user : User) (w : World)
    → find_first (Users.has_id t.user_id) w.users ≡ some user
    → ltb 0 (count_where (Users.has_id user.id) w.users) ≡ true
    → rotate d t (record w { faults = [] }) ≡ (ok (reply d user w), rotated d t user w)
unfolding rotate Tokens.revoke Users.get_by_id give_tokens store_in Tokens.create db os
rotate-calm d t user w found listed = rw (found, listed) refl

update_where-snoc :
    (p : RefreshToken → Bool) (now : ℕ) (ts : List RefreshToken) (t : RefreshToken)
    → p t ≡ false
    → update_where p (revoked now) (ts ++ t ∷ []) ≡ update_where p (revoked now) ts ++ t ∷ []
unfolding update_where
update_where-snoc p now [] t miss = rw miss refl
update_where-snoc p now (s ∷ ts) t miss =
    ap (λ l. (if p s then revoked now s else s) ∷ l) (update_where-snoc p now ts t miss)

module _ (d : AuthDeps) (hash : ℕ) (t : RefreshToken) (user : User) (w : World) where
  rotated-alive :
      IsRotated w.tokens w.fresh
      → find_first (has_hash hash) w.tokens ≡ some t
      → is_live t ≡ true
      → t.id < w.fresh
      → alive t.family (rotated d t user (rotated d t user w)).tokens ≡ 2
  rotated-alive h found live drawn =
      let hits = λ (s : RefreshToken). s.id == t.id in
      let once = update_where hits (revoked w.now) w.tokens in
      let twice = update_where hits (revoked w.now) once in
      let first = replacement d t user w in
      let second = replacement d t user (rotated d t user w) in
      let kept = update_where-snoc hits w.now once first (ground arith) in
      let fewer = alive-revoked_row hash w.now t w.tokens found live in
      let one = h.single t.family in
      let still = alive-revoked_le t.family w.now hits once in
      ap (λ l. alive t.family (l ++ second ∷ [])) kept
      ∙ alive-append t.family (twice ++ first ∷ []) second
      ∙ ap (λ n. n + (if live_in t.family second then 1 else 0)) (alive-append t.family twice first)
      ∙ ground (arith, fewer, one, still)

  use_token-calm :
      (v : World)
      → v.faults ≡ []
      → is_usable v.now t ≡ true
      → find_first (Users.has_id t.user_id) v.users ≡ some user
      → ltb 0 (count_where (Users.has_id user.id) v.users) ≡ true
      → use_token d v.now (ok (some t)) v ≡ (ok (reply d user v), rotated d t user v)
  use_token-calm v calm usable known listed = rw usable (
      subst
        (λ fs. rotate d t (record v { faults = fs }) ≡ (ok (reply d user v), rotated d t user v))
        (sym calm) (rotate-calm d t user v known listed))

  -- Where no call of the database fails, no family has more than one live token, and a token is
  -- found that may be used, of a user in the table: if two requests have both looked the token up
  -- before either of them revokes it, both are answered with a new token, and the family has two
  -- live tokens.
  pub use_token-overlap :
      w.faults ≡ []
      → IsRotated w.tokens w.fresh
      → find_first (has_hash hash) w.tokens ≡ some t
      → is_usable w.now t ≡ true
      → t.id < w.fresh
      → find_first (Users.has_id t.user_id) w.users ≡ some user
      → let first = use_token d w.now (ok (some t)) w in
        let second = use_token d w.now (ok (some t)) first.1 in
        (first.0 ≡ ok (reply d user w))
        × (second.0 ≡ ok (reply d user (rotated d t user w)))
        × (alive t.family second.1.tokens ≡ 2)
  use_token-overlap calm h found usable drawn known =
      let listed =
        count-found t.user_id user w.users known
          (find_first-passes (Users.has_id t.user_id) w.users user known) in
      let w1 = rotated d t user w in
      let one = use_token-calm w calm usable known listed in
      let two =
        ap (λ r. use_token d w.now (ok (some t)) r.1) one
        ∙ use_token-calm w1 refl usable known listed in
      (
        ap (λ r. r.0) one,
        ap (λ r. r.0) two,
        ap (λ r. alive t.family r.1.tokens) two ∙ rotated-alive h found (ground arith) drawn,
      )
