-- ===== src/RateLimit/Counts.antt =====
-- How many instants of a key are recent, before and after the rate limiters of
-- gateway/internal/httpapi/middleware.go throw the old ones away.
use one_click_agent.Prelude.{
  ℕ, ◌+◌, ◌≤◌, ◌≡◌, refl, List, [], ◌∷◌, ◌++◌, arith, Dict, lookup, ◌==◌, length, select,
  count_where, if◌then◌else◌, lookup-insert, lookup-erase, Bool-cases, inl, inr, ◌∙◌, sym,
}
use one_click_agent.RateLimit.{times_of, is_recent, clean_key, clean_keys, keep_valid}

pub count_where-select :
    (window keep now later : ℕ) (ts : List ℕ)
    → window ≤ keep
    → now ≤ later
    → count_where (is_recent window later) (select (is_recent keep now) ts)
      ≡ count_where (is_recent window later) ts
count_where-select window keep now later [] le order = refl
count_where-select window keep now later (t ∷ ts) le order =
    ground (arith, count_where-select window keep now later ts le order)

pub length-select :
    (window now : ℕ) (ts : List ℕ)
    → length (select (is_recent window now) ts) ≡ count_where (is_recent window now) ts
length-select window now [] = refl
length-select window now (t ∷ ts) = ground (arith, length-select window now ts)

pub count_where-append :
    (window later now : ℕ) (ts : List ℕ)
    → count_where (is_recent window later) (ts ++ now ∷ [])
      ≡ count_where (is_recent window later) ts + (if is_recent window later now then 1 else 0)
count_where-append window later now [] = ground arith
count_where-append window later now (t ∷ ts) =
    ground (arith, count_where-append window later now ts)

lookup-keep_valid :
    (key k : ℕ) (ts : List ℕ) (d : Dict (List ℕ))
    → times_of (lookup k (keep_valid key ts d)) ≡ (if key == k then ts else times_of (lookup k d))
lookup-keep_valid key k [] d = ground (arith, lookup-erase key k d)
lookup-keep_valid key k (t ∷ ts) d = ground (arith, lookup-insert key k (t ∷ ts) d)

clean_key-count :
    (window keep now later key k : ℕ) (d : Dict (List ℕ))
    → window ≤ keep
    → now ≤ later
    → count_where (is_recent window later) (times_of (lookup k (clean_key keep now key d)))
      ≡ count_where (is_recent window later) (times_of (lookup k d))
clean_key-count window keep now later key k d le order =
    let valid = select (is_recent keep now) (times_of (lookup key d)) in
    let law = lookup-keep_valid key k valid d in
    elim (Bool-cases (key == k)) [
      | inl t ↦
          let same : key ≡ k = ground arith in
          let l : times_of (lookup k (keep_valid key valid d)) ≡ valid = rw t at law in
          rw (l, sym same)
            (count_where-select window keep now later (times_of (lookup key d)) le order)
      | inr t ↦
          let l : times_of (lookup k (keep_valid key valid d)) ≡ times_of (lookup k d) =
            rw t at law in
          rw l refl
    ]

pub clean_keys-count :
    (window keep now later k : ℕ) (ks : List ℕ) (d : Dict (List ℕ))
    → window ≤ keep
    → now ≤ later
    → count_where (is_recent window later) (times_of (lookup k (clean_keys keep now ks d)))
      ≡ count_where (is_recent window later) (times_of (lookup k d))
unfolding clean_keys
clean_keys-count window keep now later k [] d le order = refl
clean_keys-count window keep now later k (key ∷ ks) d le order =
    clean_keys-count window keep now later k ks (clean_key keep now key d) le order
    ∙ clean_key-count window keep now later key k d le order
