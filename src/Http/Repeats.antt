-- ===== src/Http/Repeats.antt =====
-- A run of the cache of replies: gateway/internal/httpapi/idempotency.go.
use one_click_agent.Prelude.{ℕ, suc, ◌+◌, ◌*◌, ◌≡◌, refl, List, [], ◌∷◌, lookup, arith}
use one_click_agent.Model.{Bytes}
use one_click_agent.Http.Idempotency.{
  Handler, Request, write_header, write, record_all, idempotency_middleware,
}
use one_click_agent.Http.Replay.{Event, asks, ticks, run, idempotency_middleware-replays}

-- A hash of the tests.
abbrev digits : Bytes → ℕ
digits [] = 0
digits (b ∷ bs) = b + 256 * digits bs

-- Creates a thing for the request's user and answers its number.
abbrev creates : Handler ℕ
creates r n = (write_header 201 ∷ write (r.user_id ∷ n ∷ []) ∷ [], suc n)

abbrev keyed : ℕ → Bytes → Request
keyed user key = record { path = 47 ∷ []; header = key; user_id = user; payload = [] }

abbrev between : List Event
between = asks (keyed 8 (6 ∷ [])) 20 21 ∷ ticks 30 ∷ asks (keyed 8 []) 40 41 ∷ []

-- The user 8 sends the key of the user 7 and is answered what the user 7 was.
idempotency_middleware-replays_example :
    let v =
      run digits creates between
        (idempotency_middleware digits creates (keyed 7 (5 ∷ [])) 10 11 [] 0) in
    idempotency_middleware digits creates (keyed 8 (5 ∷ [])) 50 51 v.cache v.app
    ≡ record { calls = write_header 201 ∷ write (7 ∷ 0 ∷ []) ∷ []; cache = v.cache; app = v.app }
unfolding lookup record_all
idempotency_middleware-replays_example =
    idempotency_middleware-replays digits creates (digits (47 ∷ 124 ∷ 5 ∷ [])) 10 11 50 51
      (keyed 7 (5 ∷ [])) (keyed 8 (5 ∷ [])) between [] 0 refl refl refl refl refl
      (omega arith, (omega arith, (omega arith, tt))) (omega arith)
