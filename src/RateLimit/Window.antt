-- ===== src/RateLimit/Window.antt =====
-- The sliding window of the rate limiters against the history of the requests that were passed on.
use one_click_agent.Prelude.{
  subst, ◌<◌, ℕ, ◌+◌, ◌≤◌, ◌≡◌, refl, Bool, true, false, ◌&&◌, not, some, List, [], ◌∷◌, ◌++◌,
  arith, Dict, lookup, insert, leb, ◌==◌, length, select, count_where, map, if◌then◌else◌,
  lookup-insert, Bool-cases, inl, inr, ◌∙◌, suc,
}
use one_click_agent.RateLimit.{times_of, is_recent, admit, cleanup}
use one_click_agent.RateLimit.Counts.{
  count_where-select, length-select, count_where-append, clean_keys-count,
}

-- What happens to a limiter.
pub data Event : Type 0 where
  asks : ℕ → ℕ → Event
  cleans : ℕ → Event

abbrev pub time_of : Event → ℕ
time_of (asks key now) = now
time_of (cleans now) = now

-- The table, and the requests that were passed on: key and instant.
pub record History : Type 0 where
  pub tokens : Dict (List ℕ)
  pub admitted : List (ℕ × ℕ)

abbrev pub asked : ℕ → ℕ → Bool × Dict (List ℕ) → List (ℕ × ℕ) → History
asked key now (b, tokens) log = record {
  tokens = tokens;
  admitted = if b then (key, now) ∷ log else log;
}

abbrev pub event : ℕ → ℕ → ℕ → Event → History → History
event limit window keep (asks key now) h =
    asked key now (admit limit window key now h.tokens) h.admitted
event limit window keep (cleans now) h = record h { tokens = cleanup keep now h.tokens }

abbrev pub nothing_yet : History
nothing_yet = record { tokens = []; admitted = [] }

pub run : ℕ → ℕ → ℕ → List Event → History → History
run limit window keep [] h = h
run limit window keep (e ∷ es) h = run limit window keep es (event limit window keep e h)

-- The events are in the order of their instants, none before `t`.
abbrev pub InOrder : ℕ → List Event → Type 0
InOrder t [] = Unit
InOrder t (e ∷ es) = (t ≤ time_of e) × InOrder (time_of e) es

abbrev pub last_time : ℕ → List Event → ℕ
last_time t [] = t
last_time t (e ∷ es) = last_time (time_of e) es

-- The requests of a key that were passed on in the window that ends at `now`.
abbrev pub passed_on : ℕ → ℕ → ℕ → List (ℕ × ℕ) → ℕ
passed_on window key now log = count_where (λ e. (e.0 == key) && is_recent window now e.1) log

-- The table agrees with the history from `t` on, and the limit was kept.
record IsFaithful (limit window t : ℕ) (h : History) : Type 0 where
  agrees :
      (key now : ℕ)
      → t ≤ now
      → count_where (is_recent window now) (times_of (lookup key h.tokens))
        ≡ passed_on window key now h.admitted
  bounded : (key now : ℕ) → t ≤ now → passed_on window key now h.admitted ≤ limit

passed_on-later :
    (window now later key : ℕ) (log : List (ℕ × ℕ))
    → now ≤ later
    → passed_on window key later log ≤ passed_on window key now log
passed_on-later window now later key [] order = omega arith
passed_on-later window now later key (e ∷ log) order =
    ground (arith, passed_on-later window now later key log order)

one_more : (b : Bool) (m n : ℕ) → m ≡ n → m + (if b then 1 else 0) ≡ (if b then suc n else n)
one_more true m n e = omega arith
one_more false m n e = omega arith

at_most : (b : Bool) (n limit : ℕ) → n < limit → (if b then suc n else n) ≤ limit
at_most true n limit h = omega arith
at_most false n limit h = omega arith

module _ (limit window keep t : ℕ) (h : History) (faithful : IsFaithful limit window t h) where
  waits-IsFaithful : (now : ℕ) → t ≤ now → IsFaithful limit window now h
  waits-IsFaithful now order = record {
    agrees = λ k later le. faithful.agrees k later (omega arith);
    bounded = λ k later le. faithful.bounded k later (omega arith);
  }

  -- The table after a request of the key was passed on.
  abbrev passed : ℕ → ℕ → History
  passed key now = record {
    tokens =
        insert key (select (is_recent window now) (times_of (lookup key h.tokens)) ++ now ∷ [])
          h.tokens;
    admitted = (key, now) ∷ h.admitted;
  }

  passed-agrees :
      (key now k later : ℕ)
      → t ≤ now
      → now ≤ later
      → count_where (is_recent window later) (times_of (lookup k (passed key now).tokens))
        ≡ passed_on window k later (passed key now).admitted
  passed-agrees key now k later order le =
      let old = times_of (lookup key h.tokens) in
      let recent = select (is_recent window now) old in
      let law = lookup-insert key k (recent ++ now ∷ []) h.tokens in
      let appended = count_where-append window later now recent in
      let unchanged = count_where-select window window now later old (omega arith) le in
      elim (Bool-cases (key == k)) [
        | inl t ↦
            let same : key ≡ k = ground arith in
            let l : lookup k (passed key now).tokens ≡ some (recent ++ now ∷ []) = rw t at law in
            let known = faithful.agrees key later (omega arith) in
            rw (l, t) (appended ∙ one_more _ _ _ (unchanged ∙ known ∙ rw same refl))
        | inr t ↦
            let l : lookup k (passed key now).tokens ≡ lookup k h.tokens = rw t at law in
            rw (l, t) (faithful.agrees k later (omega arith))
      ]

  passed-bounded :
      (key now k later : ℕ)
      → t ≤ now
      → now ≤ later
      → passed_on window key now h.admitted < limit
      → passed_on window k later (passed key now).admitted ≤ limit
  passed-bounded key now k later order le room =
      let known = faithful.bounded k later (omega arith) in
      elim (Bool-cases (key == k)) [
        | inl t ↦
            let same : key ≡ k = ground arith in
            let fewer = passed_on-later window now later key h.admitted le in
            let fewer' : passed_on window k later h.admitted < limit =
              subst (λ i. passed_on window i later h.admitted < limit) same (omega arith) in
            at_most _ _ _ fewer'
        | inr t ↦ rw t known
      ]

  asks-IsFaithful :
      (key now : ℕ)
      → t ≤ now
      → IsFaithful limit window now (event limit window keep (asks key now) h)
  unfolding admit
  asks-IsFaithful key now order =
      let old = times_of (lookup key h.tokens) in
      let recent = select (is_recent window now) old in
      elim (Bool-cases (leb limit (length recent))) [
        | inl full ↦ rw full (waits-IsFaithful now order)
        | inr room ↦
            let count = length-select window now old ∙ faithful.agrees key now order in
            rw room (record {
              agrees = λ k later le. passed-agrees key now k later order le;
              bounded = λ k later le. passed-bounded key now k later order le (ground arith);
            })
      ]

  cleans-IsFaithful :
      (now : ℕ)
      → window ≤ keep
      → t ≤ now
      → IsFaithful limit window now (event limit window keep (cleans now) h)
  unfolding cleanup
  cleans-IsFaithful now wide order = record {
    agrees = λ k later le.
        clean_keys-count window keep now later k (map (λ e. e.0) h.tokens) h.tokens wide le
        ∙ faithful.agrees k later (omega arith);
    bounded = λ k later le. faithful.bounded k later (omega arith);
  }

run-IsFaithful :
    (limit window keep t : ℕ) (es : List Event) (h : History)
    → window ≤ keep
    → InOrder t es
    → IsFaithful limit window t h
    → IsFaithful limit window (last_time t es) (run limit window keep es h)
unfolding run
run-IsFaithful limit window keep t [] h wide order f = f
run-IsFaithful limit window keep t (asks key now ∷ es) h wide (le, order) f =
    run-IsFaithful limit window keep now es _ wide order
      (asks-IsFaithful limit window keep t h f key now le)
run-IsFaithful limit window keep t (cleans now ∷ es) h wide (le, order) f =
    run-IsFaithful limit window keep now es _ wide order
      (cleans-IsFaithful limit window keep t h f now wide le)

nothing_yet-IsFaithful : (limit window t : ℕ) → IsFaithful limit window t nothing_yet
unfolding lookup
nothing_yet-IsFaithful limit window t = record {
  agrees = λ key now le. refl;
  bounded = λ key now le. omega arith;
}

-- Where a limiter's cleanup keeps at least its window, and after any requests and cleanups in the
-- order of their instants: in no window that ends then or later were more requests of a key passed
-- on than the limit.
pub run-bounded :
    (limit window keep t key now : ℕ) (es : List Event)
    → window ≤ keep
    → InOrder t es
    → last_time t es ≤ now
    → passed_on window key now (run limit window keep es nothing_yet).admitted ≤ limit
run-bounded limit window keep t key now es wide order le =
    (run-IsFaithful limit window keep t es nothing_yet wide order
        (nothing_yet-IsFaithful limit window t)).bounded
      key now le

-- Where a limiter's cleanup keeps at least its window, and after any requests and cleanups in the
-- order of their instants: the next request of a key is refused exactly where as many as the limit
-- were passed on in the window that ends with it.
pub admit-exact :
    (limit window keep t key now : ℕ) (es : List Event)
    → window ≤ keep
    → InOrder t es
    → last_time t es ≤ now
    → let h = run limit window keep es nothing_yet in
      (admit limit window key now h.tokens).0
      ≡ not (leb limit (passed_on window key now h.admitted))
unfolding admit
admit-exact limit window keep t key now es wide order le =
    let h = run limit window keep es nothing_yet in
    let old = times_of (lookup key h.tokens) in
    let f =
      run-IsFaithful limit window keep t es nothing_yet wide order
        (nothing_yet-IsFaithful limit window t) in
    let count = length-select window now old ∙ f.agrees key now le in
    elim (Bool-cases (leb limit (length (select (is_recent window now) old)))) [
      | inl full ↦ rw full (ground arith)
      | inr room ↦ rw room (ground arith)
    ]
