-- ===== src/Http/Idempotency.antt =====
-- Replies that are kept for a repeated request: gateway/internal/httpapi/idempotency.go. SHA-256 is
-- the parameter `sha`, the next handler is a function on the state of the rest of the gateway, and
-- the cache is keyed by the hash. Other requests may come in and the cache may be cleaned at any
-- point between two requests, but one request runs at a time. Instants are in nanoseconds.
use one_click_agent.Prelude.{
  ℕ, ◌+◌, ◌*◌, ◌&&◌, Bool, Option, none, some, List, [], ◌∷◌, ◌++◌, Dict, lookup, insert, ltb, leb,
  if◌then◌else◌,
}
use one_click_agent.Model.{second, Bytes}

pub record IdempotencyEntry : Type 0 where
  pub status : ℕ
  pub body : Bytes
  pub expires_at : ℕ

abbrev pub idempotency_ttl : ℕ
idempotency_ttl = 24 * (60 * (60 * second))

-- The header is empty where the request has none; `payload` is the request's body.
pub record Request : Type 0 where
  pub path : Bytes
  pub header : Bytes
  pub user_id : ℕ
  pub payload : Bytes

-- A call of the response writer: `WriteHeader` or `Write`.
pub data Write : Type 0 where
  write_header : ℕ → Write
  write : Bytes → Write

pub record ResponseRecorder : Type 0 where
  pub status_code : ℕ
  pub body : Bytes

abbrev pub record_write : ResponseRecorder → Write → ResponseRecorder
record_write r (write_header code) = record r { status_code = code }
record_write r (write b) = record r { body = r.body ++ b }

unfoldable pub record_all : ResponseRecorder → List Write → ResponseRecorder
record_all r [] = r
record_all r (c ∷ cs) = record_all (record_write r c) cs

-- What the recorder of a request holds when the handler has made its calls.
abbrev pub recorded : List Write → ResponseRecorder
recorded cs = record_all (record { status_code = 200; body = [] }) cs

-- The calls that answer from an entry.
abbrev pub replayed : IdempotencyEntry → List Write
replayed e = write_header e.status ∷ write e.body ∷ []

-- `r.URL.Path + "|" + key`, hashed.
abbrev pub key_of : (Bytes → ℕ) → Bytes → Bytes → Option ℕ
key_of sha path [] = none
key_of sha path (b ∷ bs) = some (sha (path ++ 124 ∷ b ∷ bs))

abbrev pub idempotency_key : (Bytes → ℕ) → Request → Option ℕ
idempotency_key sha r = key_of sha r.path r.header

abbrev pub is_kept : ResponseRecorder → Bool
is_kept r = leb 200 r.status_code && ltb r.status_code 500

-- The entry that is put into the cache at an instant.
abbrev pub entry_of : ℕ → ResponseRecorder → IdempotencyEntry
entry_of later r = record {
  status = r.status_code;
  body = r.body;
  expires_at = later + idempotency_ttl;
}

abbrev pub store : ℕ → ℕ → ResponseRecorder → Dict IdempotencyEntry → Dict IdempotencyEntry
store k later r cache = if is_kept r then insert k (entry_of later r) cache else cache

abbrev pub live : ℕ → Option IdempotencyEntry → Option IdempotencyEntry
live now none = none
live now (some e) = if ltb now e.expires_at then some e else none

-- The loop that `init` starts, at one of its ticks.
unfoldable pub clean : ℕ → Dict IdempotencyEntry → Dict IdempotencyEntry
clean now [] = []
clean now ((k, e) ∷ cache) =
    let rest = clean now cache in if ltb e.expires_at now then rest else (k, e) ∷ rest

abbrev pub Handler : Type 0 → Type 0
Handler S = Request → S → List Write × S

-- The calls of a request, the cache after it and the rest of the gateway.
pub record Served (S : Type 0) : Type 0 where
  pub calls : List Write
  pub cache : Dict IdempotencyEntry
  pub app : S

module _ {S : Type 0} where
  abbrev pub keep : ℕ → ℕ → Dict IdempotencyEntry → List Write × S → Served S
  keep k later cache (calls, s) = record {
    calls = calls;
    cache = store k later (recorded calls) cache;
    app = s;
  }

  abbrev pub pass_on : Dict IdempotencyEntry → List Write × S → Served S
  pass_on cache (calls, s) = record { calls = calls; cache = cache; app = s }

  abbrev pub answer :
      Handler S → Request → ℕ → ℕ → Dict IdempotencyEntry → S → Option IdempotencyEntry → Served S
  answer next r k later cache s (some e) = record { calls = replayed e; cache = cache; app = s }
  answer next r k later cache s none = keep k later cache (next r s)

  abbrev pub serve_key :
      Handler S → Request → ℕ → ℕ → Dict IdempotencyEntry → S → Option ℕ → Served S
  serve_key next r now later cache s none = pass_on cache (next r s)
  serve_key next r now later cache s (some k) =
      answer next r k later cache s (live now (lookup k cache))

  -- A request that looks into the cache at `now` and is handled by `later`.
  unfoldable pub idempotency_middleware :
      (Bytes → ℕ) → Handler S → Request → ℕ → ℕ → Dict IdempotencyEntry → S → Served S
  idempotency_middleware sha next r now later cache s =
      serve_key next r now later cache s (idempotency_key sha r)
