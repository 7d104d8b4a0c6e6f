-- ===== src/Relay/Containment.antt =====
-- A name that `isSafeOutputName` of gateway/internal/relay/relay.go accepts stays below the
-- directory that it is joined to.
use one_click_agent.Prelude.{
  ◌≡◌, ◌≢◌, refl, sym, Bool, true, false, ◌&&◌, ◌||◌, List, [], ◌∷◌, ◌++◌, ◌==◌, arith, All,
  Bool-cases, inl, inr, subst, if◌then◌else◌,
}
use one_click_agent.Model.{Bytes, bytes_eq}
use one_click_agent.Relay.Names.{
  dot_dot, is_dot_dot, walk_one, walk, split, clean_parts, join_parts, nonempty_path, clean, leaves,
  is_safe_output_name, has_prefix, is_rooted,
}

abbrev all_up : List Bytes → Bool
all_up [] = true
all_up (p ∷ ps) = let rest = all_up ps in is_dot_dot p && rest

-- Below a part that goes up, the last part first, all parts do.
abbrev is_stack : List Bytes → Bool
is_stack [] = true
is_stack (p ∷ ps) = let rest = is_stack ps in if is_dot_dot p then all_up ps else rest

abbrev some_up : List Bytes → Bool
some_up [] = false
some_up (p ∷ ps) = let rest = some_up ps in is_dot_dot p || rest

all_up-is_stack : (s : List Bytes) → all_up s ≡ true → is_stack s ≡ true
all_up-is_stack [] h = refl
all_up-is_stack (p ∷ s) h = ground (arith, all_up-is_stack s)

walk_one-is_stack :
    (p : Bytes) (s : List Bytes) → is_stack s ≡ true → is_stack (walk_one false p s) ≡ true
walk_one-is_stack p [] h = ground arith
walk_one-is_stack p (q ∷ s) h = ground (arith, all_up-is_stack s)

walk-is_stack : (ps s : List Bytes) → is_stack s ≡ true → is_stack (walk false ps s) ≡ true
unfolding walk
walk-is_stack [] s h = h
walk-is_stack (p ∷ ps) s h = walk-is_stack ps (walk_one false p s) (walk_one-is_stack p s h)

-- What comes after a part: nothing, or a slash.
abbrev ends_part : Bytes → Bool
ends_part [] = true
ends_part (x ∷ xs) = x == 47

bytes_eq_sound : (x y : Bytes) → bytes_eq x y ≡ true → x ≡ y
bytes_eq_sound [] [] h = refl
bytes_eq_sound [] (y ∷ ys) h = absurd (cc)
bytes_eq_sound (x ∷ xs) [] h = absurd (cc)
bytes_eq_sound (x ∷ xs) (y ∷ ys) h = let k = bytes_eq_sound xs ys in ground (arith, k)

abbrev goes_up : Bytes → Bool
goes_up path = bytes_eq path dot_dot || has_prefix (46 ∷ 46 ∷ 47 ∷ []) path

join_parts-goes_up :
    (p : Bytes) (s : List Bytes) (rest : Bytes)
    → is_stack (p ∷ s) ≡ true
    → some_up (p ∷ s) ≡ true
    → ends_part rest ≡ true
    → goes_up (join_parts (p ∷ s) rest) ≡ true
unfolding join_parts
join_parts-goes_up p [] [] h u e =
    let same = bytes_eq_sound p dot_dot (ground arith) in
    subst (λ q. goes_up (join_parts (q ∷ []) []) ≡ true) (sym same) refl
join_parts-goes_up p [] (x ∷ rest) h u e =
    let same = bytes_eq_sound p dot_dot (ground arith) in
    let slash : x ≡ 47 = ground arith in
    subst (λ q. goes_up (join_parts (q ∷ []) (x ∷ rest)) ≡ true) (sym same)
      (subst (λ y. goes_up (join_parts (dot_dot ∷ []) (y ∷ rest)) ≡ true) (sym slash) refl)
join_parts-goes_up p (q ∷ s) rest h u e =
    join_parts-goes_up q s (47 ∷ p ++ rest) (ground (arith, all_up-is_stack s)) (ground arith) refl

none_up : (s : List Bytes) → some_up s ≡ false → All (λ p. is_dot_dot p ≡ false) s
none_up [] h = tt
none_up (p ∷ s) h = (ground arith, none_up s (ground arith))

-- A relative path of which some part goes up is seen by the tests.
leaves-goes_up : (path : Bytes) → goes_up path ≡ true → leaves (nonempty_path false path) ≡ true
leaves-goes_up [] h = refl
leaves-goes_up (x ∷ xs) h = ground arith

clean-leaves :
    (name : Bytes) (s : List Bytes)
    → is_stack s ≡ true
    → leaves (nonempty_path false (join_parts s [])) ≡ false
    → All (λ p. is_dot_dot p ≡ false) s × (s ≢ [])
unfolding join_parts
clean-leaves name [] h safe = absurd (cc)
clean-leaves name (p ∷ s) h safe = elim (Bool-cases (some_up (p ∷ s))) [
  | inl u ↦
      let up = leaves-goes_up (join_parts (p ∷ s) []) (join_parts-goes_up p s [] h u refl) in
      absurd (cc)
  | inr n ↦ (none_up (p ∷ s) n, λ e. absurd (cc))
]

-- The parts of a name that is accepted, once it is cleaned: there is one at least, and none of them
-- is the parent directory.
pub is_safe_output_name-stays_below :
    (name : Bytes)
    → is_safe_output_name name ≡ true
    → All (λ p. is_dot_dot p ≡ false) (clean_parts name) × (clean_parts name ≢ [])
unfolding is_safe_output_name clean clean_parts
is_safe_output_name-stays_below name safe = elim (Bool-cases (is_rooted name)) [
  | inl r ↦ absurd (ground arith)
  | inr r ↦
      let inside : leaves
            (nonempty_path (is_rooted name) (join_parts (walk (is_rooted name) (split name) []) []))
          ≡ false =
        ground arith in
      rw r (
        clean-leaves name (walk false (split name) []) (walk-is_stack (split name) [] refl)
          (rw r at inside))
]
