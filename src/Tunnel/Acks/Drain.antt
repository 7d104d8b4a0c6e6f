-- ===== src/Tunnel/Acks/Drain.antt =====
-- A frame that nobody acknowledges is given up: four ticks at least 4 s apart empty the tracker.
use one_click_agent.Prelude.{
  ℕ, zero, suc, ◌+◌, ◌*◌, ◌^◌, ◌≤◌, ◌<◌, ◌≡◌, refl, ◌⊎◌, List, [], ◌∷◌, map, arith, Bool, true,
  false, ◌||◌, ◌==◌, AllValues, erase,
}
use one_click_agent.Model.{ack_retransmit_base, ack_retransmit_max_retries, second}
use one_click_agent.Tunnel.Acks.{
  TrackedFrame, AckTracker, Sweep, sweep_entry, retransmit_ready, remove_failed, retransmit_tick,
}
use one_click_agent.Tunnel.Acks.Backoff.{retransmit_tick-AllValues}

-- A frame that is stored under its message id and was sent again three times at most.
pub record Capped (k : ℕ) (f : TrackedFrame) : Type 0 where
  pub keyed : k ≡ f.msg_id
  pub capped : f.retries ≤ ack_retransmit_max_retries

abbrev pub IsCapped : AckTracker → Type 0
IsCapped = AllValues Capped

retransmit_tick-IsCapped :
    (now : ℕ) (t : AckTracker) → IsCapped t → IsCapped (retransmit_tick now t).0
retransmit_tick-IsCapped now t h =
    retransmit_tick-AllValues Capped
      (λ now k f left over c. record { keyed = c.keyed; capped = omega arith }) now t h

-- A frame that was retried at least `n` times, was last sent at `t` or before, and is stored under
-- its message id.
pub record Aged (n t k : ℕ) (f : TrackedFrame) : Type 0 where
  pub keyed : k ≡ f.msg_id
  pub retried_enough : n ≤ f.retries
  pub sent_before : f.sent_at ≤ t

abbrev pub IsAged : ℕ → ℕ → AckTracker → Type 0
IsAged n t = AllValues (Aged n t)

backoff_bound :
    (sent t now r : ℕ)
    → r < 3
    → sent ≤ t
    → t + 4 * second ≤ now
    → sent + ack_retransmit_base * 2 ^ r ≤ now
backoff_bound sent t now zero lt h le = omega arith
backoff_bound sent t now (suc zero) lt h le = omega arith
backoff_bound sent t now (suc (suc zero)) lt h le = omega arith
backoff_bound sent t now (suc (suc (suc r))) lt h le = omega arith

contains : ℕ → List ℕ → Bool
contains k [] = false
contains k (id ∷ ids) = id == k || contains k ids

-- The entry is given up, or is one retry older.
abbrev Passed : ℕ → ℕ → List ℕ → ℕ → TrackedFrame → Type 0
Passed n now ids k f = (contains k ids ≡ true) ⊎ Aged (suc n) now k f

abbrev ids_of : List TrackedFrame → List ℕ
ids_of = map (λ f. f.msg_id)

Passed-cons :
    (n now id : ℕ) (ids : List ℕ) (t : AckTracker)
    → AllValues (Passed n now ids) t
    → AllValues (Passed n now (id ∷ ids)) t
unfolding contains
Passed-cons n now id ids [] h = tt
Passed-cons n now id ids ((k, f) ∷ t) h = ground (arith, Passed-cons n now id ids t h.1)

sweep_entry-Passed :
    (n t now k : ℕ) (f : TrackedFrame) (s : Sweep)
    → t + 4 * second ≤ now
    → Aged n t k f
    → AllValues (Passed n now (ids_of s.failed)) s.frames
    → let s' = sweep_entry now k f s in AllValues (Passed n now (ids_of s'.failed)) s'.frames
unfolding sweep_entry contains
sweep_entry-Passed n t now k f s late a h = ground (
  arith,
  backoff_bound f.sent_at t now f.retries,
  Passed-cons n now f.msg_id (ids_of s.failed) s.frames,
)

retransmit_ready-Passed :
    (n t now : ℕ) (m : AckTracker)
    → t + 4 * second ≤ now
    → IsAged n t m
    → let s = retransmit_ready now m in AllValues (Passed n now (ids_of s.failed)) s.frames
unfolding retransmit_ready
retransmit_ready-Passed n t now [] late h = tt
retransmit_ready-Passed n t now ((k, f) ∷ m) late h =
    sweep_entry-Passed n t now k f (retransmit_ready now m) late h.0
      (retransmit_ready-Passed n t now m late h.1)

erase-Passed :
    (n now id : ℕ) (ids : List ℕ) (t : AckTracker)
    → AllValues (Passed n now (id ∷ ids)) t
    → AllValues (Passed n now ids) (erase id t)
unfolding contains erase
erase-Passed n now id ids [] h = tt
erase-Passed n now id ids ((k, f) ∷ t) h = ground (arith, erase-Passed n now id ids t h.1)

remove_failed-IsAged :
    (n now : ℕ) (ids : List ℕ) (t : AckTracker)
    → AllValues (Passed n now ids) t
    → IsAged (suc n) now (remove_failed ids t)
unfolding remove_failed contains
remove_failed-IsAged n now [] [] h = tt
remove_failed-IsAged n now [] ((k, f) ∷ t) h = ground (arith, remove_failed-IsAged n now [] t h.1)
remove_failed-IsAged n now (id ∷ ids) t h =
    remove_failed-IsAged n now ids (erase id t) (erase-Passed n now id ids t h)

-- A tick at least 4 s after the latest send ages every frame that stays.
retransmit_tick-IsAged :
    (n t now : ℕ) (m : AckTracker)
    → t + 4 * second ≤ now
    → IsAged n t m
    → IsAged (suc n) now (retransmit_tick now m).0
unfolding retransmit_tick
retransmit_tick-IsAged n t now m late h =
    remove_failed-IsAged n now _ _ (retransmit_ready-Passed n t now m late h)

none_too_old : (t : ℕ) (m : AckTracker) → IsCapped m → IsAged 4 t m → m ≡ []
none_too_old t [] s a = refl
none_too_old t (e ∷ m) s a = absurd (omega (arith, s.0.capped, a.0.retried_enough))

IsAged-start :
    (t : ℕ) (m : AckTracker) → IsCapped m → AllValues (λ k f. f.sent_at ≤ t) m → IsAged 0 t m
IsAged-start t [] s h = tt
IsAged-start t ((k, f) ∷ m) s h = (
  record { keyed = s.0.keyed; retried_enough = omega arith; sent_before = h.0 },
  IsAged-start t m s.1 h.1,
)

-- Where every frame is stored under its message id, was sent again three times at most, and was
-- last sent at `t` or before, four ticks at least 4 s apart, with no send and no ACK in between,
-- leave the tracker empty: no frame is retried for ever.
pub four_ticks-empty :
    (t a b c d : ℕ) (m : AckTracker)
    → IsCapped m
    → AllValues (λ k f. f.sent_at ≤ t) m
    → t + 4 * second ≤ a
    → a + 4 * second ≤ b
    → b + 4 * second ≤ c
    → c + 4 * second ≤ d
    → (retransmit_tick d (retransmit_tick c (retransmit_tick b (retransmit_tick a m).0).0).0).0 ≡ []
four_ticks-empty t a b c d m s sent ta ab bc cd =
    none_too_old d _
      (retransmit_tick-IsCapped d _ (
        retransmit_tick-IsCapped c _
          (retransmit_tick-IsCapped b _ (retransmit_tick-IsCapped a m s))))
      (retransmit_tick-IsAged 3 c d _ cd (
        retransmit_tick-IsAged 2 b c _ bc (
          retransmit_tick-IsAged 1 a b _ ab
            (retransmit_tick-IsAged 0 t a m ta (IsAged-start t m s sent)))))
