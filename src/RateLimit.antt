-- ===== src/RateLimit.antt =====
-- The three rate limiters of gateway/internal/httpapi/middleware.go: one sliding window per key (the
-- remote address, or the user), and the cleanup that each runs every minute. A limit of 0 stands for
-- every limit that is not positive. Instants are in nanoseconds.
mod Counts
mod Window
mod Examples
use one_click_agent.Prelude.{
  ℕ, ◌+◌, ◌*◌, Bool, true, false, Option, none, some, List, [], ◌∷◌, ◌++◌, Dict, lookup, insert,
  erase, ltb, leb, length, select, map, if◌then◌else◌,
}
use one_click_agent.Model.{second}

abbrev pub minute : ℕ
minute = 60 * second

-- `tokens[key]`.
abbrev pub times_of : Option (List ℕ) → List ℕ
times_of none = []
times_of (some ts) = ts

-- `t.After(now.Add(-window))`.
abbrev pub is_recent : ℕ → ℕ → ℕ → Bool
is_recent window now t = ltb now (t + window)

-- A request: whether it is passed on, and the table.
unfoldable pub admit : ℕ → ℕ → ℕ → ℕ → Dict (List ℕ) → Bool × Dict (List ℕ)
admit limit window key now tokens =
    let recent = select (is_recent window now) (times_of (lookup key tokens)) in
    if leb limit (length recent)
    then (false, tokens)
    else (true, insert key (recent ++ now ∷ []) tokens)

abbrev pub keep_valid : ℕ → List ℕ → Dict (List ℕ) → Dict (List ℕ)
keep_valid key [] tokens = erase key tokens
keep_valid key (t ∷ ts) tokens = insert key (t ∷ ts) tokens

-- The cleanup of one key.
abbrev pub clean_key : ℕ → ℕ → ℕ → Dict (List ℕ) → Dict (List ℕ)
clean_key keep now key tokens =
    keep_valid key (select (is_recent keep now) (times_of (lookup key tokens))) tokens

unfoldable pub clean_keys : ℕ → ℕ → List ℕ → Dict (List ℕ) → Dict (List ℕ)
clean_keys keep now [] tokens = tokens
clean_keys keep now (k ∷ ks) tokens = clean_keys keep now ks (clean_key keep now k tokens)

unfoldable pub cleanup : ℕ → ℕ → Dict (List ℕ) → Dict (List ℕ)
cleanup keep now tokens = clean_keys keep now (map (λ e. e.0) tokens) tokens

-- One limiter per second and address, and two per minute; each keeps what its cleanup needs.
pub record Limiter : Type 0 where
  pub window : ℕ
  pub keep : ℕ

abbrev pub rate_limit : Limiter
rate_limit = record { window = second; keep = minute }

abbrev pub auth_rate_limit : Limiter
auth_rate_limit = record { window = minute; keep = 2 * minute }

abbrev pub job_rate_limit : Limiter
job_rate_limit = record { window = minute; keep = 2 * minute }

-- The job limiter is off where its limit is not positive.
unfoldable pub admit_job : ℕ → ℕ → ℕ → Dict (List ℕ) → Bool × Dict (List ℕ)
unfolding admit
admit_job limit user now tokens =
    if ltb 0 limit then admit limit job_rate_limit.window user now tokens else (true, tokens)
