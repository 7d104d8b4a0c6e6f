-- ===== src/RateLimit/Examples.antt =====
-- Runs of the rate limiters: gateway/internal/httpapi/middleware.go.
use one_click_agent.Prelude.{◌*◌, ◌≤◌, ◌≡◌, not, leb, List, [], ◌∷◌, arith}
use one_click_agent.RateLimit.{admit, minute}
use one_click_agent.RateLimit.Window.{
  Event, asks, cleans, run, nothing_yet, passed_on, run-bounded, admit-exact,
}

-- Three attempts of address 9, a cleanup and one more, with two a minute allowed.
abbrev attempts : List Event
attempts = asks 9 5 ∷ asks 9 6 ∷ asks 9 7 ∷ cleans (2 * minute) ∷ asks 9 (2 * minute) ∷ []

run-bounded_example :
    passed_on minute 9 (2 * minute) (run 2 minute (2 * minute) attempts nothing_yet).admitted ≤ 2
run-bounded_example =
    run-bounded 2 minute (2 * minute) 0 9 (2 * minute) attempts (omega arith)
      (omega arith, (omega arith, (omega arith, (omega arith, (omega arith, tt))))) (omega arith)

admit-exact_example :
    (admit 2 minute 9 (2 * minute) (run 2 minute (2 * minute) attempts nothing_yet).tokens).0
    ≡ not (
        leb 2 (
          passed_on minute 9
            (2 * minute)
            (run 2 minute (2 * minute) attempts nothing_yet).admitted))
admit-exact_example =
    admit-exact 2 minute (2 * minute) 0 9 (2 * minute) attempts (omega arith)
      (omega arith, (omega arith, (omega arith, (omega arith, (omega arith, tt))))) (omega arith)
