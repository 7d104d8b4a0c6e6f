-- ===== src/Store/Rows.antt =====
-- What the SQL statements of the stores do to a list of rows.
use one_click_agent.Prelude.{
  All-imp, some-injective, subst, sym, ◌∙◌, ◌≡◌, refl, Bool, true, false, Option, none, some, List,
  [], ◌∷◌, arith, if◌then◌else◌, All, length, inl, inr, ◌⊎◌, Bool-cases,
}

module _ {A : Type 0} where
  -- UPDATE … SET f WHERE p.
  unfoldable pub update_where : (A → Bool) → (A → A) → List A → List A
  update_where p f [] = []
  update_where p f (x ∷ xs) = (if p x then f x else x) ∷ update_where p f xs

  -- ORDER BY … LIMIT 1: the first of the rows that come before no other.
  unfoldable pub first_by : (A → A → Bool) → List A → Option A
  first_by before [] = none
  first_by before (x ∷ xs) = elim (first_by before xs) [
    | none ↦ some x
    | some y ↦ if before y x then some y else some x
  ]

  abbrev pub insert_by : (A → A → Bool) → A → List A → List A
  insert_by before x [] = x ∷ []
  insert_by before x (y ∷ ys) =
      let rest = insert_by before x ys in if before y x then y ∷ rest else x ∷ y ∷ ys

  -- ORDER BY, stable.
  unfoldable pub sort_by : (A → A → Bool) → List A → List A
  sort_by before [] = []
  sort_by before (x ∷ xs) = insert_by before x (sort_by before xs)

  pub update_where-All {κ} :
      (P : A → Type κ) (p : A → Bool) (f : A → A) (xs : List A)
      → ((x : A) → p x ≡ true → P x → P (f x))
      → All P xs
      → All P (update_where p f xs)
  unfolding update_where
  update_where-All P p f [] k h = tt
  update_where-All P p f (x ∷ xs) k h =
      (updated (Bool-cases (p x)), update_where-All P p f xs k h.1)
    where
      updated : (p x ≡ true) ⊎ (p x ≡ false) → P (if p x then f x else x)
      updated (inl e) = rw e (k x e h.0)
      updated (inr e) = rw e h.0

  pub length-update_where :
      (p : A → Bool) (f : A → A) (xs : List A) → length (update_where p f xs) ≡ length xs
  unfolding update_where
  length-update_where p f [] = refl
  length-update_where p f (x ∷ xs) = omega (arith, length-update_where p f xs)

  -- The choice, read step by step.
  first_by-cons :
      (before : A → A → Bool) (x : A) (xs : List A)
      → ((xs ≡ []) × (first_by before (x ∷ xs) ≡ some x))
        ⊎ ((y : A) × (first_by before xs ≡ some y)
            × (first_by before (x ∷ xs) ≡ (if before y x then some y else some x)))
  unfolding first_by
  first_by-cons before x [] = inl (refl, refl)
  first_by-cons before x (z ∷ zs) = elim (first_by-cons before z zs) [
    | inl (e, f) ↦ inr (z, f, rw f)
    | inr (y, e, f) ↦ elim (Bool-cases (before y z)) [
      | inl b ↦ let g : first_by before (z ∷ zs) ≡ some y = rw (f, b) in inr (y, g, rw g)
      | inr b ↦ let g : first_by before (z ∷ zs) ≡ some z = rw (f, b) in inr (z, g, rw g)
    ]
  ]

  -- The chosen row satisfies whatever all rows do.
  pub first_by-All {κ} :
      (P : A → Type κ) (before : A → A → Bool) (xs : List A) (x : A)
      → All P xs
      → first_by before xs ≡ some x
      → P x
  unfolding first_by
  first_by-All P before [] x h e = absurd (cc)
  first_by-All P before (y ∷ ys) x h e = elim (first_by-cons before y ys) [
    | inl (n, f) ↦ subst P (some-injective y x (sym f ∙ e)) h.0
    | inr (z, n, f) ↦ elim (Bool-cases (before z y)) [
      | inl b ↦ subst P (some-injective z x (sym (f ∙ rw b) ∙ e)) (first_by-All P before ys z h.1 n)
      | inr b ↦ subst P (some-injective y x (sym (f ∙ rw b) ∙ e)) h.0
    ]
  ]

  pub first_by-none : (before : A → A → Bool) (xs : List A) → first_by before xs ≡ none → xs ≡ []
  unfolding first_by
  first_by-none before [] e = refl
  first_by-none before (x ∷ xs) e = ground arith

  -- No row comes before the chosen one, where "does not come before" is reflexive, transitive and
  -- total.
  pub first_by-least :
      (before : A → A → Bool) (xs : List A) (x : A)
      → ((a : A) → before a a ≡ false)
      → ((a b c : A) → before b a ≡ false → before c b ≡ false → before c a ≡ false)
      → ((a b : A) → before a b ≡ true → before b a ≡ false)
      → first_by before xs ≡ some x
      → All (λ y. before y x ≡ false) xs
  unfolding first_by
  first_by-least before [] x irr trans anti e = tt
  first_by-least before (y ∷ ys) x irr trans anti e = elim (first_by-cons before y ys) [
    | inl (n, f) ↦ rw n (
        subst (λ v. All (λ u. before u v ≡ false) (y ∷ [])) (some-injective y x (sym f ∙ e))
          (irr y, tt))
    | inr (z, n, f) ↦ elim (Bool-cases (before z y)) [
      | inl b ↦
          subst (λ v. All (λ u. before u v ≡ false) (y ∷ ys))
            (some-injective z x (sym (f ∙ rw b) ∙ e))
            (anti z y b, first_by-least before ys z irr trans anti n)
      | inr b ↦
          subst (λ v. All (λ u. before u v ≡ false) (y ∷ ys))
            (some-injective y x (sym (f ∙ rw b) ∙ e))
            (
              irr y,
              All-imp (λ w. before w z ≡ false) (λ w. before w y ≡ false) ys
                  (λ w h. trans y z w b h) (first_by-least before ys z irr trans anti n),
            )
    ]
  ]
