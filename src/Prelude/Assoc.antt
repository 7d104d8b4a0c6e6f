-- ===== src/Prelude/Assoc.antt =====
-- Go maps keyed by identifiers, as association lists: a write replaces the entry of its key.
use Prim.Native.Nat.{ℕ, suc, ◌≤◌}
use mathlib.Core.Path.{◌≡◌, refl}
use mathlib.Core.List.{List, [], ◌∷◌}
use mathlib.Core.Option.{Option, none, some}
use native.Mathlib.Omega.{arith}
use one_click_agent.Prelude.Tests.{◌==◌, if◌then◌else◌}
use one_click_agent.Prelude.Lists.{length, All}

abbrev pub Dict {ℓ} : Type ℓ → Type ℓ
Dict V = List (ℕ × V)

module _ {ℓ} {V : Type ℓ} where
  unfoldable pub lookup : ℕ → Dict V → Option V
  lookup key [] = none
  lookup key ((j, found) ∷ d) = if j == key then some found else lookup key d

  unfoldable pub insert : ℕ → V → Dict V → Dict V
  insert key new [] = (key, new) ∷ []
  insert key new ((j, old) ∷ d) = if j == key then (key, new) ∷ d else (j, old) ∷ insert key new d

  unfoldable pub erase : ℕ → Dict V → Dict V
  erase k [] = []
  erase k ((j, w) ∷ m) = let rest = erase k m in if j == k then rest else (j, w) ∷ rest

  pub lookup-insert :
      (key other : ℕ) (new : V) (d : Dict V)
      → lookup other (insert key new d) ≡ (if key == other then some new else lookup other d)
  unfolding lookup insert
  lookup-insert key other new [] = refl
  lookup-insert key other new ((i, old) ∷ d) = ground (arith, lookup-insert key other new d)

  pub lookup-erase :
      (k j : ℕ) (m : Dict V) → lookup j (erase k m) ≡ (if k == j then none else lookup j m)
  unfolding lookup erase
  lookup-erase k j [] = ground arith
  lookup-erase k j ((i, w) ∷ m) = ground (arith, lookup-erase k j m)

  pub length-insert_le : (k : ℕ) (v : V) (m : Dict V) → length (insert k v m) ≤ suc (length m)
  unfolding insert
  length-insert_le k v [] = omega arith
  length-insert_le k v ((i, w) ∷ m) = ground (arith, length-insert_le k v m)

  pub length-erase_le : (k : ℕ) (m : Dict V) → length (erase k m) ≤ length m
  unfolding erase
  length-erase_le k [] = omega arith
  length-erase_le k ((i, w) ∷ m) = ground (arith, length-erase_le k m)

  -- Every value satisfies `P` at its key.
  abbrev pub AllValues {κ} : (ℕ → V → Type κ) → Dict V → Type κ
  AllValues P = All (λ e. P e.0 e.1)

  pub insert-AllValues {κ} :
      (P : ℕ → V → Type κ) (k : ℕ) (v : V) (m : Dict V)
      → P k v
      → AllValues P m
      → AllValues P (insert k v m)
  unfolding insert
  insert-AllValues P k v [] p h = (p, tt)
  insert-AllValues P k v ((i, w) ∷ m) p h = ground (arith, insert-AllValues P k v m p h.1)

  pub erase-AllValues {κ} :
      (P : ℕ → V → Type κ) (k : ℕ) (m : Dict V) → AllValues P m → AllValues P (erase k m)
  unfolding erase
  erase-AllValues P k [] h = tt
  erase-AllValues P k ((i, w) ∷ m) h = ground (arith, erase-AllValues P k m h.1)
