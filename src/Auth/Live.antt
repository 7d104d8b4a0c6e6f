-- ===== src/Auth/Live.antt =====
-- How many tokens of a family are live: gateway/internal/store/tokens.go.
use one_click_agent.Prelude.{
  ℕ, ◌+◌, ◌≤◌, ◌<◌, Bool, true, ◌&&◌, some, some-injective, List, [], ◌∷◌, ◌++◌, ◌==◌,
  if◌then◌else◌, find_first, count_where, All, All-append, arith, ◌≡◌, refl, subst, sym, inl, inr,
  Bool-cases,
}
use one_click_agent.Model.{RefreshToken}
use one_click_agent.Store.Rows.{update_where, update_where-All}
use one_click_agent.Store.Tokens.{is_live, revoked, has_hash}

abbrev pub live_in : ℕ → RefreshToken → Bool
live_in f t = (t.family == f) && is_live t

abbrev pub alive : ℕ → List RefreshToken → ℕ
alive f ts = count_where (live_in f) ts

pub alive-append :
    (f : ℕ) (ts : List RefreshToken) (t : RefreshToken)
    → alive f (ts ++ t ∷ []) ≡ alive f ts + (if live_in f t then 1 else 0)
alive-append f [] t = ground arith
alive-append f (x ∷ ts) t = ground (arith, alive-append f ts t)

-- Revoking makes no token live.
pub alive-revoked_le :
    (f now : ℕ) (p : RefreshToken → Bool) (ts : List RefreshToken)
    → alive f (update_where p (revoked now) ts) ≤ alive f ts
unfolding update_where
alive-revoked_le f now p [] = omega arith
alive-revoked_le f now p (t ∷ ts) = ground (arith, alive-revoked_le f now p ts)

-- Revoking a live row leaves its family with one live token less at least.
pub alive-revoked_row :
    (h now : ℕ) (t : RefreshToken) (ts : List RefreshToken)
    → find_first (has_hash h) ts ≡ some t
    → is_live t ≡ true
    → alive t.family (update_where (λ s. s.id == t.id) (revoked now) ts) < alive t.family ts
unfolding update_where
alive-revoked_row h now t [] found live = cc
alive-revoked_row h now t (x ∷ ts) found live = elim (Bool-cases (has_hash h x)) [
  | inl here ↦
      let same : x ≡ t = some-injective x t (rw here at found) in
      let live_here : is_live x ≡ true = subst (λ s. is_live s ≡ true) (sym same) live in
      let rest = alive-revoked_le x.family now (λ s. s.id == x.id) ts in
      subst
        (λ s.
          alive s.family (update_where (λ r. r.id == s.id) (revoked now) (x ∷ ts))
          < alive s.family (x ∷ ts))
        same (ground (arith, rest))
  | inr there ↦
      let further = alive-revoked_row h now t ts (rw there at found) live in ground (arith, further)
]

-- Revoking a family leaves it without a live token.
pub alive-revoked_family :
    (f now : ℕ) (ts : List RefreshToken) → alive f (update_where (live_in f) (revoked now) ts) ≡ 0
unfolding update_where
alive-revoked_family f now [] = refl
alive-revoked_family f now (t ∷ ts) = ground (arith, alive-revoked_family f now ts)

-- No family has more than one live token, and every family was drawn before.
pub record IsRotated (ts : List RefreshToken) (fresh : ℕ) : Type 0 where
  pub single : (f : ℕ) → alive f ts ≤ 1
  pub drawn : All (λ t. t.family < fresh) ts

pub alive-new : (f : ℕ) (ts : List RefreshToken) → All (λ t. t.family < f) ts → alive f ts ≡ 0
alive-new f [] h = refl
alive-new f (t ∷ ts) h = ground (arith, alive-new f ts h.1)

pub drawn_later :
    (n m : ℕ) (ts : List RefreshToken)
    → n ≤ m
    → All (λ t. t.family < n) ts
    → All (λ t. t.family < m) ts
drawn_later n m [] le h = tt
drawn_later n m (t ∷ ts) le h = (omega arith, drawn_later n m ts le h.1)

pub IsRotated-later : (n m : ℕ) (ts : List RefreshToken) → n ≤ m → IsRotated ts n → IsRotated ts m
IsRotated-later n m ts le r = record { single = r.single; drawn = drawn_later n m ts le r.drawn }

pub IsRotated-revoked :
    (now fresh : ℕ) (p : RefreshToken → Bool) (ts : List RefreshToken)
    → IsRotated ts fresh
    → IsRotated (update_where p (revoked now) ts) fresh
IsRotated-revoked now fresh p ts r = record {
  single = λ f. omega (arith, alive-revoked_le f now p ts, r.single f);
  drawn = update_where-All (λ t. t.family < fresh) p (revoked now) ts (λ t passes h. h) r.drawn;
}

pub IsRotated-added :
    (t : RefreshToken) (ts : List RefreshToken) (fresh : ℕ)
    → t.family < fresh
    → alive t.family ts ≡ 0
    → IsRotated ts fresh
    → IsRotated (ts ++ t ∷ []) fresh
IsRotated-added t ts fresh before none_live r = record {
  single = λ f. ground (arith, alive-append f ts t, r.single f);
  drawn = All-append (λ s. s.family < fresh) ts (t ∷ []) r.drawn (before, tt);
}
