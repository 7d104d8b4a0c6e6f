-- ===== src/VncRelay/Sessions.antt =====
-- Sessions of the VNC relay: who may join one, one session per job, and what closing one means.
use Prim.Native.String.{String}
use one_click_agent.Prelude.{
  ◌∙◌, Bool, some-injective, subst, ◌==◌, ◌&&◌, ◌∷◌, [], if◌then◌else◌, Bool-cases, ltb, insert,
  ◌+◌, ℕ, ◌≡◌, refl, true, none, some, arith, lookup, Dict, count_where, inl, inr, Option-cases,
  lookup-insert,
}
use one_click_agent.VncRelay.{
  Relay, Session, Status, is_live_for, get_session, mark_ready, close_session, closed_session,
  reuse, create_session, Request, new_session,
}

-- How many live sessions a job has.
abbrev pub live_count : ℕ → Dict Session → ℕ
live_count job d = count_where (λ e. is_live_for job e.1) d

-- Closing a session twice is closing it once.
pub close_session-twice :
    (now later id : ℕ) (r : Relay)
    → close_session later id (close_session now id r) ≡ close_session now id r
unfolding close_session get_session
close_session-twice now later id r = elim (Option-cases (lookup id r.sessions)) [
  | inl e ↦ ground arith
  | inr (s, e) ↦ ground (arith, lookup-insert id id (closed_session now s) r.sessions)
]

-- A closed session for which VNC_OPENED comes in is ready again.
pub mark_ready-revives :
    (id : ℕ) (password : String) (s : Session) (r : Relay)
    → get_session id r ≡ some s
    → s.status ≡ Status.closed
    → (s' : Session) × (get_session id (mark_ready id password r).1 ≡ some s')
      × (s'.status ≡ Status.ready)
unfolding mark_ready get_session
mark_ready-revives id password s r found shut =
    let s' : Session = record s {
      rfb_password = password;
      status = Status.ready;
      ready_fired = true;
    } in
    (s', ground (arith, lookup-insert id id s' r.sessions), refl)

reuse-none : (job h : ℕ) (d : Dict Session) → reuse job h d ≡ none → live_count job d ≡ 0
unfolding reuse
reuse-none job h [] e = refl
reuse-none job h ((k, s) ∷ d) e = elim (Bool-cases (is_live_for job s)) [
  | inl live ↦ absurd (ground arith)
  | inr dead ↦ elim (Option-cases (reuse job h d)) [
    | inl n ↦ ground (arith, reuse-none job h d n)
    | inr (p, n) ↦ absurd (ground arith)
  ]
]

-- What the search for a session to use again tells of the number of live ones.
abbrev Reused : ℕ → ℕ → Dict Session → ℕ × Dict Session → Type 0
Reused job j d r = (live_count j r.1 ≡ live_count j d) × (ltb 0 (live_count job d) ≡ true)

reuse-some :
    (job h j : ℕ) (d : Dict Session) (r : ℕ × Dict Session)
    → reuse job h d ≡ some r
    → Reused job j d r
unfolding reuse
reuse-some job h j [] r e = absurd (cc)
reuse-some job h j ((k, s) ∷ d) r e = elim (Bool-cases (is_live_for job s)) [
  | inl live ↦
      let t : Session = record s { token_hash = h } in
      let f : some (s.id, (k, t) ∷ d) ≡ some r = rw live at e in
      subst (Reused job j ((k, s) ∷ d)) (some-injective (s.id, (k, t) ∷ d) r f) (refl, ground arith)
  | inr dead ↦ elim (Option-cases (reuse job h d)) [
    | inl n ↦ absurd (ground arith)
    | inr (q, n) ↦
        let f : some (q.0, (k, s) ∷ q.1) ≡ some r = rw (dead, n) at e in
        let ih = reuse-some job h j d q n in
        subst (Reused job j ((k, s) ∷ d)) (some-injective (q.0, (k, s) ∷ q.1) r f)
          (ground (arith, ih.0), ground (arith, ih.1))
  ]
]

insert-live_count :
    (j id : ℕ) (s : Session) (d : Dict Session)
    → lookup id d ≡ none
    → live_count j (insert id s d) ≡ live_count j d + (if is_live_for j s then 1 else 0)
unfolding lookup insert
insert-live_count j id s [] e = ground arith
insert-live_count j id s ((k, t) ∷ d) e = ground (arith, insert-live_count j id s d)

positive : (n : ℕ) (b : Bool) → ltb 0 n ≡ true → n ≡ (if b && (n == 0) then 1 else n)
positive n b h = ground arith

-- Where the new identifier is not in use: after a session is created for a job, the job has one live
-- session if it had none, and as many as before if it had some; no other job's sessions change in
-- number.
pub create_session-live_count :
    (hash : ℕ → ℕ) (q : Request) (id token now j : ℕ) (r : Relay)
    → lookup id r.sessions ≡ none
    → let before = live_count j r.sessions in
      live_count j (create_session hash q id token now r).1.sessions
      ≡ (if (q.job_id == j) && (before == 0) then 1 else before)
unfolding create_session
create_session-live_count hash q id token now j r fresh =
    elim (Option-cases (reuse q.job_id (hash token) r.sessions)) [
      | inl e ↦
          let none_live = reuse-none q.job_id (hash token) r.sessions e in
          let s : Session = new_session q id (hash token) r.buffer_cap now in
          let more = insert-live_count j id s r.sessions fresh in
          elim (Bool-cases (q.job_id == j)) [
            | inl t ↦
                let same : q.job_id ≡ j = ground arith in
                let z : live_count j r.sessions ≡ 0 =
                  subst (λ i. live_count i r.sessions ≡ 0) same none_live in
                rw (e, create_session) (more ∙ rw (t, z) refl)
            | inr t ↦ rw (e, create_session) (more ∙ rw t (omega arith))
          ]
      | inr (p, e) ↦
          let (kept, some_live) = reuse-some q.job_id (hash token) j r.sessions p e in
          elim (Bool-cases (q.job_id == j)) [
            | inl t ↦
                let same : q.job_id ≡ j = ground arith in
                let n : ltb 0 (live_count j r.sessions) ≡ true =
                  subst (λ i. ltb 0 (live_count i r.sessions) ≡ true) same some_live in
                rw (e, create_session) (kept ∙ positive (live_count j r.sessions) (q.job_id == j) n)
            | inr t ↦ rw (e, create_session) (kept ∙ rw t refl)
          ]
    ]
