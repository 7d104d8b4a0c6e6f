-- ===== src/Store/Listed.antt =====
-- Which rows a query that counts, selects or sorts has found.
use mathlib.Core.List.{Memᴰ}
use one_click_agent.Prelude.{
  Bool, true, List, [], ◌∷◌, ltb, if◌then◌else◌, count_where, select, arith, ◌≡◌, refl, sym, ◌∙◌,
  subst, Bool-cases, inl, inr,
}
use one_click_agent.Store.Rows.{sort_by, insert_by}

module _ {A : Type 0} (p : A → Bool) where
  pub member_count :
      (x : A) (xs : List A) → Memᴰ x xs → p x ≡ true → ltb 0 (count_where p xs) ≡ true
  member_count x [] m h = elim m [ ]
  member_count x (y ∷ xs) (Memᴰ.head e) h =
      let passes : p y ≡ true = subst (λ z. p z ≡ true) e h in ground (arith, passes)
  member_count x (y ∷ xs) (Memᴰ.tail m) h = ground (arith, member_count x xs m h)

  pub count_member :
      (xs : List A) → ltb 0 (count_where p xs) ≡ true → (x : A) × Memᴰ x xs × (p x ≡ true)
  count_member [] h = absurd (cc)
  count_member (x ∷ xs) h = elim (Bool-cases (p x)) [
    | inl e ↦ (x, Memᴰ.head refl, e)
    | inr e ↦ later (count_member xs (sym (rw e) ∙ h))
  ]
    where
      later : (y : A) × Memᴰ y xs × (p y ≡ true) → (y : A) × Memᴰ y (x ∷ xs) × (p y ≡ true)
      later (y, m, e) = (y, Memᴰ.tail m, e)

  kept_deeper : (x y : A) (xs : List A) → Memᴰ x xs × (p x ≡ true) → Memᴰ x (y ∷ xs) × (p x ≡ true)
  kept_deeper x y xs (m, e) = (Memᴰ.tail m, e)

  kept_head :
      (x y : A) (xs : List A)
      → p y ≡ true
      → (Memᴰ x (select p xs) → Memᴰ x xs × (p x ≡ true))
      → Memᴰ x (y ∷ select p xs)
      → Memᴰ x (y ∷ xs) × (p x ≡ true)
  kept_head x y xs e deeper (Memᴰ.head same) =
      (Memᴰ.head same, subst (λ z. p z ≡ true) (sym same) e)
  kept_head x y xs e deeper (Memᴰ.tail m) = kept_deeper x y xs (deeper m)

  pub select_member : (x : A) (xs : List A) → Memᴰ x (select p xs) → Memᴰ x xs × (p x ≡ true)
  select_member x [] m = elim m [ ]
  select_member x (y ∷ xs) m =
      let deeper : Memᴰ x (select p xs) → Memᴰ x xs × (p x ≡ true) = λ n. select_member x xs n in
      let at : Bool → Type 0 = λ b. Memᴰ x (if b then y ∷ select p xs else select p xs) in
      elim (Bool-cases (p y)) [
        | inl e ↦ kept_head x y xs e deeper (subst at e m)
        | inr e ↦ kept_deeper x y xs (deeper (subst at e m))
      ]

module _ {A : Type 0} (before : A → A → Bool) where
  under_first : (x y z : A) (xs : List A) → Memᴰ x (y ∷ xs) → Memᴰ x (y ∷ z ∷ xs)
  under_first x y z xs (Memᴰ.head same) = Memᴰ.head same
  under_first x y z xs (Memᴰ.tail m) = Memᴰ.tail (Memᴰ.tail m)

  past_first :
      (x y z : A) (xs ys : List A)
      → (Memᴰ x (y ∷ xs) → Memᴰ x ys)
      → Memᴰ x (y ∷ z ∷ xs)
      → Memᴰ x (z ∷ ys)
  past_first x y z xs ys deeper (Memᴰ.head same) = Memᴰ.tail (deeper (Memᴰ.head same))
  past_first x y z xs ys deeper (Memᴰ.tail (Memᴰ.head same)) = Memᴰ.head same
  past_first x y z xs ys deeper (Memᴰ.tail (Memᴰ.tail m)) = Memᴰ.tail (deeper (Memᴰ.tail m))

  before_first :
      (x y z : A) (xs ys : List A)
      → (Memᴰ x ys → Memᴰ x (y ∷ xs))
      → Memᴰ x (z ∷ ys)
      → Memᴰ x (y ∷ z ∷ xs)
  before_first x y z xs ys deeper (Memᴰ.head same) = Memᴰ.tail (Memᴰ.head same)
  before_first x y z xs ys deeper (Memᴰ.tail m) = under_first x y z xs (deeper m)

  insert_by_member : (x y : A) (xs : List A) → Memᴰ x (y ∷ xs) → Memᴰ x (insert_by before y xs)
  insert_by_member x y [] m = m
  insert_by_member x y (z ∷ xs) m =
      let deeper : Memᴰ x (y ∷ xs) → Memᴰ x (insert_by before y xs) =
        λ n. insert_by_member x y xs n in
      elim (Bool-cases (before z y)) [
        | inl e ↦ rw e (past_first x y z xs (insert_by before y xs) deeper m)
        | inr e ↦ rw e m
      ]

  member_insert_by : (x y : A) (xs : List A) → Memᴰ x (insert_by before y xs) → Memᴰ x (y ∷ xs)
  member_insert_by x y [] m = m
  member_insert_by x y (z ∷ xs) m =
      let deeper : Memᴰ x (insert_by before y xs) → Memᴰ x (y ∷ xs) =
        λ n. member_insert_by x y xs n in
      let at : Bool → Type 0 = λ b. Memᴰ x (if b then z ∷ insert_by before y xs else y ∷ z ∷ xs) in
      elim (Bool-cases (before z y)) [
        | inl e ↦ before_first x y z xs (insert_by before y xs) deeper (subst at e m)
        | inr e ↦ subst at e m
      ]

  pub sort_by_member : (x : A) (xs : List A) → Memᴰ x xs → Memᴰ x (sort_by before xs)
  unfolding sort_by
  sort_by_member x [] m = m
  sort_by_member x (y ∷ xs) (Memᴰ.head e) = insert_by_member x y (sort_by before xs) (Memᴰ.head e)
  sort_by_member x (y ∷ xs) (Memᴰ.tail m) =
      insert_by_member x y (sort_by before xs) (Memᴰ.tail (sort_by_member x xs m))

  first_or_deeper :
      (x y : A) (xs ys : List A) → (Memᴰ x ys → Memᴰ x xs) → Memᴰ x (y ∷ ys) → Memᴰ x (y ∷ xs)
  first_or_deeper x y xs ys deeper (Memᴰ.head e) = Memᴰ.head e
  first_or_deeper x y xs ys deeper (Memᴰ.tail m) = Memᴰ.tail (deeper m)

  pub member_sort_by : (x : A) (xs : List A) → Memᴰ x (sort_by before xs) → Memᴰ x xs
  unfolding sort_by
  member_sort_by x [] m = m
  member_sort_by x (y ∷ xs) m =
      first_or_deeper x y xs (sort_by before xs) (λ n. member_sort_by x xs n)
        (member_insert_by x y (sort_by before xs) m)
