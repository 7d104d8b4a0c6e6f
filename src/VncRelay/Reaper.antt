-- ===== src/VncRelay/Reaper.antt =====
-- What the reaper leaves: no session that is past its time.
use mathlib.Core.List.{Memᴰ}
use one_click_agent.Prelude.{
  ℕ, ◌≡◌, ◌≢◌, refl, Bool, true, false, ◌&&◌, not, Option, none, some, List, [], ◌∷◌, arith, lookup,
  Dict, select, map, if◌then◌else◌, ◌==◌, ◌⊎◌, inl, inr, Bool-cases, Option-cases, lookup-insert,
  subst, some-injective, sym, ◌∙◌,
}
use one_click_agent.VncRelay.{
  Relay, Session, is_closed, is_expired, close_session, closed_session, close_all, reap,
  get_session,
}

-- A session that was found and closed.
abbrev shut : ℕ → Option Session → Option Session
shut now none = none
shut now (some s) = some (if is_closed s.status then s else closed_session now s)

close_session-lookup :
    (now id k : ℕ) (r : Relay)
    → lookup k (close_session now id r).sessions
      ≡ (if id == k then shut now (lookup id r.sessions) else lookup k r.sessions)
unfolding close_session get_session
close_session-lookup now id k r = elim (Option-cases (lookup id r.sessions)) [
  | inl n ↦ ground arith
  | inr (t, n) ↦ elim (Bool-cases (is_closed t.status)) [
    | inl c ↦ ground arith
    | inr c ↦ ground (arith, lookup-insert id k (closed_session now t) r.sessions)
  ]
]

shut-closed :
    (now : ℕ) (o : Option Session) (s : Session) → shut now o ≡ some s → is_closed s.status ≡ true
shut-closed now none s e = absurd (cc)
shut-closed now (some t) s e = elim (Bool-cases (is_closed t.status)) [
  | inl c ↦
      let f : some t ≡ some s = rw c at e in
      subst (λ u. is_closed u.status ≡ true) (some-injective t s f) c
  | inr c ↦
      let f : some (closed_session now t) ≡ some s = rw c at e in
      subst (λ u. is_closed u.status ≡ true) (some-injective (closed_session now t) s f) refl
]

-- A session after another one was closed: it is closed, or it is the one it was.
close_session-cases :
    (now id k : ℕ) (s : Session) (r : Relay)
    → lookup k (close_session now id r).sessions ≡ some s
    → (is_closed s.status ≡ true) ⊎ ((lookup k r.sessions ≡ some s) × (id ≢ k))
close_session-cases now id k s r e =
    let law = close_session-lookup now id k r in
    elim (Bool-cases (id == k)) [
      | inl t ↦
          let l : lookup k (close_session now id r).sessions ≡ shut now (lookup id r.sessions) =
            rw t at law in
          inl (shut-closed now (lookup id r.sessions) s (sym l ∙ e))
      | inr t ↦
          let l : lookup k (close_session now id r).sessions ≡ lookup k r.sessions = rw t at law in
          inr (sym l ∙ e, ground arith)
    ]

not_either : (id : ℕ) (ids : List ℕ) (k : ℕ) → id ≢ k → ¬ Memᴰ k ids → ¬ Memᴰ k (id ∷ ids)
not_either id ids k differ out (Memᴰ.head e) = differ (sym e)
not_either id ids k differ out (Memᴰ.tail m) = out m

close_all-cases :
    (now k : ℕ) (s : Session) (ids : List ℕ) (r : Relay)
    → lookup k (close_all now ids r).sessions ≡ some s
    → (is_closed s.status ≡ true) ⊎ ((lookup k r.sessions ≡ some s) × ¬ Memᴰ k ids)
unfolding close_all
close_all-cases now k s [] r e = inr (e, λ m. elim m [ ])
close_all-cases now k s (id ∷ ids) r e =
    elim (close_all-cases now k s ids (close_session now id r) e) [
      | inl c ↦ inl c
      | inr (f, out) ↦ elim (close_session-cases now id k s r f) [
        | inl c ↦ inl c
        | inr (g, differ) ↦ inr (g, λ m. not_either id ids k differ out m)
      ]
    ]

picked_further :
    (p : ℕ × Session → Bool) (k : ℕ) (x : ℕ × Session) (d : Dict Session)
    → Memᴰ k (map (λ e. e.0) (select p d))
    → Memᴰ k (map (λ e. e.0) (select p (x ∷ d)))
picked_further p k x d m = elim (Bool-cases (p x)) [ inl h ↦ rw h (Memᴰ.tail m) | inr h ↦ rw h m ]

picked :
    (p : ℕ × Session → Bool) (k : ℕ) (s : Session) (d : Dict Session)
    → lookup k d ≡ some s
    → p (k, s) ≡ true
    → Memᴰ k (map (λ e. e.0) (select p d))
unfolding lookup
picked p k s [] e h = absurd (ground arith)
picked p k s ((j, t) ∷ d) e h = elim (Bool-cases (j == k)) [
  | inl here ↦
      let f : some t ≡ some s = rw here at e in
      let same : k ≡ j = ground arith in
      let h' : p (j, t) ≡ true = rw (sym same, some-injective t s f) h in rw h' (Memᴰ.head same)
  | inr away ↦
      let f : lookup k d ≡ some s = rw away at e in picked_further p k (j, t) d (picked p k s d f h)
]

-- After a tick of the reaper no session is open and past its time.
pub reap-none_expired :
    (now k : ℕ) (s : Session) (r : Relay)
    → get_session k (reap now r) ≡ some s
    → (not (is_closed s.status) && is_expired now s) ≡ false
unfolding reap get_session
reap-none_expired now k s r e =
    let open_late : ℕ × Session → Bool = λ e. not (is_closed e.1.status) && is_expired now e.1 in
    elim (close_all-cases now k s (map (λ e. e.0) (select open_late r.sessions)) r e) [
      | inl c ↦ rw c refl
      | inr (f, out) ↦ elim (Bool-cases (open_late (k, s))) [
        | inl late ↦ absurd (out (picked open_late k s r.sessions f late))
        | inr timely ↦ timely
      ]
    ]
