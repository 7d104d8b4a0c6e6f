-- ===== src/Store/Members.antt =====
-- Which rows are in a table after an update, and which a query finds.
use mathlib.Core.List.{Memᴰ}
use one_click_agent.Prelude.{
  find_first, count_where, ◌==◌, some-injective, sym, arith, ◌≡◌, refl, Bool, true, false, some,
  List, [], ◌∷◌, All, select, Option-cases, Bool-cases, inl, inr, subst, if◌then◌else◌, All-imp,
  All-select, select-passes, find_first-passes,
}
use one_click_agent.Store.Rows.{update_where, first_by, first_by-All, first_by-none}

module _ {A : Type 0} where
  Mem-update_where :
      (p : A → Bool) (f : A → A) (x : A) (xs : List A)
      → Memᴰ x xs
      → Memᴰ (if p x then f x else x) (update_where p f xs)
  unfolding update_where
  Mem-update_where p f x [] m = elim m [ ]
  Mem-update_where p f x (y ∷ ys) (Memᴰ.head e) = Memᴰ.head (rw e refl)
  Mem-update_where p f x (y ∷ ys) (Memᴰ.tail m) = Memᴰ.tail (Mem-update_where p f x ys m)

  pub Mem-updated :
      (p : A → Bool) (f : A → A) (x : A) (xs : List A)
      → Memᴰ x xs
      → p x ≡ true
      → Memᴰ (f x) (update_where p f xs)
  Mem-updated p f x xs m h = let there = Mem-update_where p f x xs m in rw h at there

  pub Mem-untouched :
      (p : A → Bool) (f : A → A) (x : A) (xs : List A)
      → Memᴰ x xs
      → p x ≡ false
      → Memᴰ x (update_where p f xs)
  Mem-untouched p f x xs m h = let there = Mem-update_where p f x xs m in rw h at there

  pub Mem-select :
      (p : A → Bool) (x : A) (xs : List A) → Memᴰ x xs → p x ≡ true → Memᴰ x (select p xs)
  Mem-select p x [] m h = elim m [ ]
  Mem-select p x (y ∷ ys) (Memᴰ.head e) h =
      let passes : p y ≡ true = subst (λ z. p z ≡ true) e h in rw passes (Memᴰ.head e)
  Mem-select p x (y ∷ ys) (Memᴰ.tail m) h = elim (Bool-cases (p y)) [
    | inl e ↦ rw e (Memᴰ.tail (Mem-select p x ys m h))
    | inr e ↦ rw e (Mem-select p x ys m h)
  ]

  All-Mem : (xs : List A) → All (λ y. Memᴰ y xs) xs
  All-Mem [] = tt
  All-Mem (x ∷ xs) = (
    Memᴰ.head refl,
    All-imp (λ y. Memᴰ y xs) (λ y. Memᴰ y (x ∷ xs)) xs (λ y m. Memᴰ.tail m) (All-Mem xs),
  )

  not_in_empty : (x : A) → ¬ Memᴰ x []
  not_in_empty x m = elim m [ ]

  -- Where a row passes, a query that orders the passing rows finds one that passes.
  pub first_by-found :
      (before : A → A → Bool) (p : A → Bool) (x : A) (xs : List A)
      → Memᴰ x xs
      → p x ≡ true
      → (y : A) × (first_by before (select p xs) ≡ some y) × Memᴰ y xs × (p y ≡ true)
  first_by-found before p x xs m h = elim (Option-cases (first_by before (select p xs))) [
    | inl e ↦
        let empty = first_by-none before (select p xs) e in
        absurd (not_in_empty x (subst (λ ys. Memᴰ x ys) empty (Mem-select p x xs m h)))
    | inr (y, e) ↦ (
      y,
      e,
      first_by-All (λ z. Memᴰ z xs) before (select p xs) y
          (All-select (λ z. Memᴰ z xs) p xs (All-Mem xs)) e,
      first_by-All (λ z. p z ≡ true) before (select p xs) y (select-passes p xs) e,
    )
  ]

  -- The first row that passes a test that no update changes is the updated one.
  pub find_first-update_where :
      (p q : A → Bool) (f : A → A) (x : A) (xs : List A)
      → ((y : A) → p (f y) ≡ p y)
      → find_first p xs ≡ some x
      → find_first p (update_where q f xs) ≡ some (if q x then f x else x)
  unfolding update_where
  find_first-update_where p q f x [] same e = absurd (cc)
  find_first-update_where p q f x (y ∷ ys) same e = elim (Bool-cases (p y)) [
    | inl t ↦
        let y_is : y ≡ x = some-injective y x (rw t at e) in
        elim (Bool-cases (q y)) [
          | inl u ↦
              subst (λ z. find_first p (update_where q f (y ∷ ys)) ≡ some (if q z then f z else z))
                y_is (rw (u, same y, t) refl)
          | inr u ↦
              subst (λ z. find_first p (update_where q f (y ∷ ys)) ≡ some (if q z then f z else z))
                y_is (rw (u, t) refl)
        ]
    | inr t ↦
        let rest = find_first-update_where p q f x ys same (rw t at e) in
        elim (Bool-cases (q y)) [ inl u ↦ rw (u, same y, t) rest | inr u ↦ rw (u, t) rest ]
  ]

  -- The row that is found is the one that is updated.
  pub updated_row :
      (p : A → Bool) (f : A → A) (x : A) (xs : List A)
      → ((y : A) → p (f y) ≡ p y)
      → find_first p xs ≡ some x
      → find_first p (update_where p f xs) ≡ some (f x)
  updated_row p f x xs same e =
      let there = find_first-update_where p p f x xs same e in
      let passes = find_first-passes p xs x e in rw passes at there

  pub count_where-found :
      (p q : A → Bool) (x : A) (xs : List A)
      → find_first p xs ≡ some x
      → q x ≡ true
      → (count_where q xs == 0) ≡ false
  count_where-found p q x [] e h = absurd (cc)
  count_where-found p q x (y ∷ ys) e h = elim (Bool-cases (p y)) [
    | inl t ↦
        let y_is : y ≡ x = some-injective y x (rw t at e) in
        let passes : q y ≡ true = subst (λ z. q z ≡ true) (sym y_is) h in rw passes (ground arith)
    | inr t ↦
        let rest = count_where-found p q x ys (rw t at e) h in
        elim (Bool-cases (q y)) [ inl u ↦ rw u (ground arith) | inr u ↦ rw u rest ]
  ]
