-- ===== src/Http/Replay.antt =====
-- A request that is repeated: gateway/internal/httpapi/idempotency.go.
use one_click_agent.Prelude.{
  ◌<◌, ℕ, false, some, List, [], ◌∷◌, Dict, lookup, ◌==◌, lookup-insert, arith, ◌≡◌, All, Option,
  none, refl, true, ap, ◌+◌, ◌∙◌,
}
use one_click_agent.Model.{Bytes}
use one_click_agent.Http.Idempotency.{
  Request, IdempotencyEntry, Handler, Served, idempotency_middleware, clean, live, entry_of, store,
  ResponseRecorder, idempotency_key, answer, is_kept, replayed, serve_key, recorded,
  idempotency_ttl, key_of,
}

-- What happens between two requests: a request that starts and is handled at two instants, or a tick
-- of the cleaning loop.
pub data Event : Type 0 where
  asks : Request → ℕ → ℕ → Event
  ticks : ℕ → Event

abbrev pub moment : Event → ℕ
moment (asks r now later) = now
moment (ticks now) = now

lookup-clean :
    (k now : ℕ) (e : IdempotencyEntry) (cache : Dict IdempotencyEntry)
    → lookup k cache ≡ some e
    → now < e.expires_at
    → lookup k (clean now cache) ≡ some e
unfolding lookup clean
lookup-clean k now e [] found t = found
lookup-clean k now e ((j, x) ∷ cache) found t = grind (arith, lookup-clean k now e cache)

live-some : (now : ℕ) (e : IdempotencyEntry) → now < e.expires_at → live now (some e) ≡ some e
live-some now e t = ground arith

lookup-store :
    (k j later : ℕ) (r : ResponseRecorder) (e : IdempotencyEntry) (cache : Dict IdempotencyEntry)
    → lookup k cache ≡ some e
    → (j == k) ≡ false
    → lookup k (store j later r cache) ≡ some e
lookup-store k j later r e cache found other =
    grind (arith, lookup-insert j k (entry_of later r) cache)

lookup-stored :
    (k later : ℕ) (r : ResponseRecorder) (cache : Dict IdempotencyEntry)
    → is_kept r ≡ true
    → lookup k (store k later r cache) ≡ some (entry_of later r)
lookup-stored k later r cache kept = grind (arith, lookup-insert k k (entry_of later r) cache)

other_key :
    (k j now : ℕ) (e : IdempotencyEntry) (cache : Dict IdempotencyEntry)
    → lookup k cache ≡ some e
    → now < e.expires_at
    → live now (lookup j cache) ≡ none
    → (j == k) ≡ false
other_key k j now e cache found t missed = grind (arith, live-some now e t)

module _ {S : Type 0} (sha : Bytes → ℕ) (next : Handler S) where
  abbrev pub step : Event → Served S → Served S
  step (asks r now later) v = idempotency_middleware sha next r now later v.cache v.app
  step (ticks now) v = record v { cache = clean now v.cache }

  unfoldable pub run : List Event → Served S → Served S
  run [] v = v
  run (x ∷ xs) v = run xs (step x v)

  answer-keeps :
      (k j later : ℕ) (e : IdempotencyEntry) (r : Request) (cache : Dict IdempotencyEntry) (s : S)
      (o : Option IdempotencyEntry)
      → lookup k cache ≡ some e
      → (o ≡ none → (j == k) ≡ false)
      → lookup k (answer next r j later cache s o).cache ≡ some e
  answer-keeps k j later e r cache s none found other =
      lookup-store k j later (recorded (next r s).0) e cache found (other refl)
  answer-keeps k j later e r cache s (some x) found other = found

  serve_key-keeps :
      (k now later : ℕ) (e : IdempotencyEntry) (r : Request) (cache : Dict IdempotencyEntry) (s : S)
      (o : Option ℕ)
      → lookup k cache ≡ some e
      → now < e.expires_at
      → lookup k (serve_key next r now later cache s o).cache ≡ some e
  serve_key-keeps k now later e r cache s none found t = found
  serve_key-keeps k now later e r cache s (some j) found t =
      answer-keeps k j later e r cache s (live now (lookup j cache)) found
        (other_key k j now e cache found t)

  step-keeps :
      (k : ℕ) (e : IdempotencyEntry) (x : Event) (v : Served S)
      → lookup k v.cache ≡ some e
      → moment x < e.expires_at
      → lookup k (step x v).cache ≡ some e
  unfolding idempotency_middleware
  step-keeps k e (asks r now later) v found t =
      serve_key-keeps k now later e r v.cache v.app (idempotency_key sha r) found t
  step-keeps k e (ticks now) v found t = lookup-clean k now e v.cache found t

  run-keeps :
      (k : ℕ) (e : IdempotencyEntry) (xs : List Event) (v : Served S)
      → lookup k v.cache ≡ some e
      → All (λ x. moment x < e.expires_at) xs
      → lookup k (run xs v).cache ≡ some e
  unfolding run
  run-keeps k e [] v found ts = found
  run-keeps k e (x ∷ xs) v found ts =
      run-keeps k e xs (step x v) (step-keeps k e x v found ts.0) ts.1

  hit-replays :
      (k now later : ℕ) (e : IdempotencyEntry) (q : Request) (cache : Dict IdempotencyEntry) (s : S)
      → idempotency_key sha q ≡ some k
      → lookup k cache ≡ some e
      → now < e.expires_at
      → idempotency_middleware sha next q now later cache s
        ≡ record { calls = replayed e; cache = cache; app = s }
  unfolding idempotency_middleware
  hit-replays k now later e q cache s key found t =
      ap (serve_key next q now later cache s) key
      ∙ ap (answer next q k later cache s) (ap (live now) found ∙ live-some now e t)

  miss-keeps :
      (k now later : ℕ) (r : Request) (cache : Dict IdempotencyEntry) (s : S)
      → idempotency_key sha r ≡ some k
      → live now (lookup k cache) ≡ none
      → is_kept (recorded (next r s).0) ≡ true
      → lookup k (idempotency_middleware sha next r now later cache s).cache
        ≡ some (entry_of later (recorded (next r s).0))
  unfolding idempotency_middleware
  miss-keeps k now later r cache s key missed kept =
      ap (λ o. lookup k (serve_key next r now later cache s o).cache) key
      ∙ ap (λ o. lookup k (answer next r k later cache s o).cache) missed
      ∙ lookup-stored k later (recorded (next r s).0) cache kept

  -- A request with an idempotency key for which the cache holds no live entry is handled, and the
  -- status that was recorded is between 200 and 499. Then, whatever requests and cleanings come in
  -- between that all start before 24 hours after it was handled, a request of the same path and key
  -- that starts before that instant, of whichever user and with whichever payload, is answered by
  -- the recorded status and body; the handler is not run for it and the cache is as it was.
  pub idempotency_middleware-replays :
      (k now later now' later' : ℕ) (r q : Request) (xs : List Event)
      (cache : Dict IdempotencyEntry) (s : S)
      → idempotency_key sha r ≡ some k
      → q.path ≡ r.path
      → q.header ≡ r.header
      → live now (lookup k cache) ≡ none
      → is_kept (recorded (next r s).0) ≡ true
      → All (λ x. moment x < later + idempotency_ttl) xs
      → now' < later + idempotency_ttl
      → let v = run xs (idempotency_middleware sha next r now later cache s) in
        idempotency_middleware sha next q now' later' v.cache v.app ≡ record {
          calls = replayed (entry_of later (recorded (next r s).0));
          cache = v.cache;
          app = v.app;
        }
  idempotency_middleware-replays k now later now' later' r q xs cache s key paths keys missed kept
        ts t =
      let first = idempotency_middleware sha next r now later cache s in
      let e = entry_of later (recorded (next r s).0) in
      let v = run xs first in
      hit-replays k now' later' e q v.cache v.app
        (ap (λ p. key_of sha p q.header) paths ∙ ap (key_of sha r.path) keys ∙ key)
        (run-keeps k e xs first (miss-keeps k now later r cache s key missed kept) ts) t
