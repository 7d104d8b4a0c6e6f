-- ===== src/Relay/Reassembly.antt =====
-- Putting a pulled file together from chunks that come in whatever order and number: the buffer of
-- `OnFilePullChunk` and `OnFilePullEnd` in gateway/internal/relay/relay.go.
use mathlib.Core.List.{Memᴰ}
use one_click_agent.Prelude.{
  ℕ, zero, suc, ◌<◌, ◌≡◌, refl, sym, ap, Bool, true, false, Option, none, some, List, [], ◌∷◌,
  length, set, get_elem?, replicate, All, arith, ◌⊎◌, inl, inr, is_some, some-injective, subst,
}
use one_click_agent.Model.{Bytes}
use one_click_agent.Relay.Outputs.{assembled}

-- What a buffer has is right: each place is empty or has the chunk of that place.
abbrev IsPartOf : List (Option Bytes) → List Bytes → Type 0
IsPartOf [] [] = Unit
IsPartOf [] (c ∷ cs) = ⊥
IsPartOf (o ∷ b) [] = ⊥
IsPartOf (o ∷ b) (c ∷ cs) = ((o ≡ none) ⊎ (o ≡ some c)) × IsPartOf b cs

-- Whether a place has a chunk.
abbrev filled : List (Option Bytes) → ℕ → Bool
filled [] i = false
filled (o ∷ b) zero = is_some o
filled (o ∷ b) (suc i) = filled b i

replicate-IsPartOf : (cs : List Bytes) → IsPartOf (replicate (length cs) none) cs
replicate-IsPartOf [] = tt
replicate-IsPartOf (c ∷ cs) = (inl refl, replicate-IsPartOf cs)

set-IsPartOf :
    (b : List (Option Bytes)) (cs : List Bytes) (i : ℕ) (c : Bytes)
    → IsPartOf b cs
    → get_elem? cs i ≡ some c
    → IsPartOf (set b i (some c)) cs
set-IsPartOf [] [] i c h e = tt
set-IsPartOf [] (d ∷ cs) i c h e = h
set-IsPartOf (o ∷ b) [] i c h e = absurd h
set-IsPartOf (o ∷ b) (d ∷ cs) zero c h e = (inr (sym e), h.1)
set-IsPartOf (o ∷ b) (d ∷ cs) (suc i) c h e = (h.0, set-IsPartOf b cs i c h.1 e)

filled-set :
    (b : List (Option Bytes)) (cs : List Bytes) (i : ℕ) (c : Bytes)
    → IsPartOf b cs
    → get_elem? cs i ≡ some c
    → filled (set b i (some c)) i ≡ true
filled-set [] [] i c h e = absurd (cc)
filled-set [] (d ∷ cs) i c h e = absurd h
filled-set (o ∷ b) [] i c h e = absurd h
filled-set (o ∷ b) (d ∷ cs) zero c h e = refl
filled-set (o ∷ b) (d ∷ cs) (suc i) c h e = filled-set b cs i c h.1 e

set-keeps_filled :
    (b : List (Option Bytes)) (i j : ℕ) (c : Bytes)
    → filled b j ≡ true
    → filled (set b i (some c)) j ≡ true
set-keeps_filled [] i j c h = h
set-keeps_filled (o ∷ b) zero zero c h = refl
set-keeps_filled (o ∷ b) zero (suc j) c h = h
set-keeps_filled (o ∷ b) (suc i) zero c h = h
set-keeps_filled (o ∷ b) (suc i) (suc j) c h = set-keeps_filled b i j c h

-- The buffer after some chunks were stored.
abbrev pub store_all : List (ℕ × Bytes) → List (Option Bytes) → List (Option Bytes)
store_all [] b = b
store_all ((i, c) ∷ ws) b = store_all ws (set b i (some c))

-- Each of the chunks is one of the file's.
abbrev pub AreChunksOf : List Bytes → List (ℕ × Bytes) → Type 0
AreChunksOf cs ws = All (λ w. get_elem? cs w.0 ≡ some w.1) ws

store_all-IsPartOf :
    (ws : List (ℕ × Bytes)) (b : List (Option Bytes)) (cs : List Bytes)
    → AreChunksOf cs ws
    → IsPartOf b cs
    → IsPartOf (store_all ws b) cs
store_all-IsPartOf [] b cs h p = p
store_all-IsPartOf ((i, c) ∷ ws) b cs h p =
    store_all-IsPartOf ws (set b i (some c)) cs h.1 (set-IsPartOf b cs i c p h.0)

store_all-keeps_filled :
    (ws : List (ℕ × Bytes)) (b : List (Option Bytes)) (j : ℕ)
    → filled b j ≡ true
    → filled (store_all ws b) j ≡ true
store_all-keeps_filled [] b j h = h
store_all-keeps_filled ((i, c) ∷ ws) b j h =
    store_all-keeps_filled ws (set b i (some c)) j (set-keeps_filled b i j c h)

-- Whether a chunk of that index is there.
abbrev pub Brings : ℕ → List (ℕ × Bytes) → Type 0
Brings j ws = (c : Bytes) × Memᴰ (j, c) ws

store_all-filled :
    (ws : List (ℕ × Bytes)) (b : List (Option Bytes)) (cs : List Bytes) (j : ℕ) (c : Bytes)
    → AreChunksOf cs ws
    → IsPartOf b cs
    → Memᴰ (j, c) ws
    → filled (store_all ws b) j ≡ true
store_all-filled [] b cs j c h p m = elim m [ ]
store_all-filled ((i, d) ∷ ws) b cs j c h p (Memᴰ.head e) =
    store_all-keeps_filled ws (set b i (some d)) j (
      subst (λ k. filled (set b i (some d)) k ≡ true) (sym (ap (λ w. w.0) e))
        (filled-set b cs i d p h.0))
store_all-filled ((i, d) ∷ ws) b cs j c h p (Memᴰ.tail m) =
    store_all-filled ws (set b i (some d)) cs j c h.1 (set-IsPartOf b cs i d p h.0) m

assembled-filled :
    (b : List (Option Bytes)) (cs : List Bytes)
    → IsPartOf b cs
    → ((j : ℕ) → j < length cs → filled b j ≡ true)
    → assembled b ≡ some cs
unfolding assembled
assembled-filled [] [] p k = refl
assembled-filled [] (c ∷ cs) p k = absurd p
assembled-filled (o ∷ b) [] p k = absurd p
assembled-filled (none ∷ b) (c ∷ cs) p k = absurd (let there = k zero (omega arith) in cc)
assembled-filled (some d ∷ b) (c ∷ cs) (inl e, p) k = absurd (cc)
assembled-filled (some d ∷ b) (c ∷ cs) (inr e, p) k =
    let rest = assembled-filled b cs p (λ j less. k (suc j) (omega arith)) in
    rw (rest, some-injective d c e) refl

-- Chunks of a file, in any order and any number, of which each index is there at least once, put
-- into an empty buffer of as many places as the file has chunks, are the file's chunks in order.
pub assembled-store_all :
    (cs : List Bytes) (ws : List (ℕ × Bytes))
    → AreChunksOf cs ws
    → ((j : ℕ) → j < length cs → Brings j ws)
    → assembled (store_all ws (replicate (length cs) none)) ≡ some cs
assembled-store_all cs ws h k =
    let b = replicate (length cs) none in
    assembled-filled (store_all ws b) cs (store_all-IsPartOf ws b cs h (replicate-IsPartOf cs))
      λ j less. store_all-filled ws b cs j (k j less).0 h (replicate-IsPartOf cs) (k j less).1
