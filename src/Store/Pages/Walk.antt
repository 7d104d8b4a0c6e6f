-- ===== src/Store/Pages/Walk.antt =====
-- The pages of a list put together: `ListByUser` of gateway/internal/store/jobs.go and files.go.
use one_click_agent.Prelude.{
  ◌-◌, ◌<◌, ◌≤◌, ℕ, zero, suc, ◌&&◌, Bool, some, List, [], ◌∷◌, ◌++◌, ◌==◌, ltb, select, take, drop,
  get_elem?, length, All, if◌then◌else◌, arith, ◌≡◌, refl, ap, Option, find_first, none, ◌∙◌,
  Bool-cases, inl, inr, sym, subst, length-drop,
}
use one_click_agent.Store.Rows.{sort_by, insert_by}
use one_click_agent.Store.Pages.{newer, list_page, older_than, selected, page, page_limit}

-- The rows of a page and, where it has a cursor, those that follow it.
abbrev pub continued : {A : Type 0} → List A × Option ℕ → (ℕ → List A) → List A
continued (found, none) next = found
continued (found, some c) next = found ++ next c

module _ {A : Type 0} where
  -- Where a page of `suc n` rows is cut: its last row and the rest.
  abbrev Cut : ℕ → List A → Type 0
  Cut n xs =
      (ys : List A) × (x : A) × (xs ≡ ys ++ x ∷ drop (suc n) xs)
      × (take (suc n) (take (suc (suc n)) xs) ≡ ys ++ x ∷ [])
      × (get_elem? (take (suc (suc n)) xs) n ≡ some x)

  cut : (n : ℕ) (xs : List A) → suc n < length xs → Cut n xs
  cut n [] t = absurd (omega arith)
  cut zero (x ∷ xs) t = ([], x, refl, refl, refl)
  cut (suc n) (z ∷ xs) t =
      let (ys, x, whole, front, last) = cut n xs (omega arith) in
      (z ∷ ys, x, ap (λ l. z ∷ l) whole, ap (λ l. z ∷ l) front, last)

  take-all : (n : ℕ) (xs : List A) → length xs ≤ n → take n xs ≡ xs
  take-all zero [] h = refl
  take-all zero (x ∷ xs) h = absurd (omega arith)
  take-all (suc n) [] h = refl
  take-all (suc n) (x ∷ xs) h = ap (λ l. x ∷ l) (take-all n xs (omega arith))

  length-take_more : (n : ℕ) (xs : List A) → n < length xs → length (take (suc n) xs) ≡ suc n
  length-take_more zero [] h = absurd (omega arith)
  length-take_more zero (x ∷ xs) h = refl
  length-take_more (suc n) [] h = absurd (omega arith)
  length-take_more (suc n) (x ∷ xs) h = ap suc (length-take_more n xs (omega arith))

  append-snoc : (xs : List A) (x : A) (ys : List A) → (xs ++ x ∷ []) ++ ys ≡ xs ++ x ∷ ys
  append-snoc [] x ys = refl
  append-snoc (z ∷ xs) x ys = ap (λ l. z ∷ l) (append-snoc xs x ys)

  append_assoc : (xs ys zs : List A) → (xs ++ ys) ++ zs ≡ xs ++ (ys ++ zs)
  append_assoc [] ys zs = refl
  append_assoc (x ∷ xs) ys zs = ap (λ l. x ∷ l) (append_assoc xs ys zs)

module _ {A : Type 0} (id_of created : A → ℕ) where
  select-insert_by :
      (c : ℕ) (x : A) (ys : List A)
      → select (λ y. ltb (created y) c) (insert_by (newer id_of created) x ys) ≡ (
          if ltb (created x) c
          then insert_by (newer id_of created) x (select (λ y. ltb (created y) c) ys)
          else select (λ y. ltb (created y) c) ys)
  select-insert_by c x [] = refl
  select-insert_by c x (y ∷ ys) = ground (arith, select-insert_by c x ys)

  select-sort_by :
      (c : ℕ) (own : A → Bool) (xs : List A)
      → sort_by (newer id_of created) (select (λ y. own y && ltb (created y) c) xs)
        ≡ select (λ y. ltb (created y) c) (sort_by (newer id_of created) (select own xs))
  unfolding sort_by
  select-sort_by c own [] = refl
  select-sort_by c own (x ∷ xs) =
      let inner = select-insert_by c x (sort_by (newer id_of created) (select own xs)) in
      ground (arith, inner, select-sort_by c own xs)

  -- Each row is strictly newer than those after it.
  abbrev pub IsDescending : List A → Type 0
  IsDescending [] = Unit
  IsDescending (x ∷ xs) = All (λ y. created y < created x) xs × IsDescending xs

  select-older :
      (c : ℕ) (xs : List A) → All (λ y. created y < c) xs → select (λ y. ltb (created y) c) xs ≡ xs
  select-older c [] h = refl
  select-older c (x ∷ xs) h = ground (arith, select-older c xs h.1)

  All-last : (P : A → Type 0) (xs : List A) (x : A) (ys : List A) → All P (xs ++ x ∷ ys) → P x
  All-last P [] x ys h = h.0
  All-last P (z ∷ xs) x ys h = All-last P xs x ys h.1

  select-after :
      (xs : List A) (x : A) (ys : List A)
      → IsDescending (xs ++ x ∷ ys)
      → select (λ y. ltb (created y) (created x)) (xs ++ x ∷ ys) ≡ ys
  select-after [] x ys h = ground (arith, select-older (created x) ys h.0)
  select-after (z ∷ xs) x ys h =
      let newer_first = All-last (λ y. created y < created z) xs x ys h.0 in
      ground (arith, select-after xs x ys h.1)

  page-short :
      (n : ℕ) (rest : List A)
      → length rest ≤ n
      → page id_of created n (take (suc n) rest) ≡ (rest, none)
  page-short n rest h = rw (take-all (suc n) rest (omega arith)) (ground arith)

  page-long :
      (n : ℕ) (rest ys : List A) (x : A)
      → suc n < length rest
      → take (suc n) (take (suc (suc n)) rest) ≡ ys ++ x ∷ []
      → get_elem? (take (suc (suc n)) rest) n ≡ some x
      → page id_of created (suc n) (take (suc (suc n)) rest) ≡ (ys ++ x ∷ [], some (id_of x))
  page-long n rest ys x t front last =
      let full = length-take_more (suc n) rest t in
      let less : (suc n - 1) ≡ n = omega arith in rw (less, last, front, full) (ground arith)

  module _ (own : A → Bool) (limit : ℕ) (rows : List A) where
    -- The rows of the list from a cursor on.
    abbrev pub following : Option ℕ → List A
    following cursor = sort_by (newer id_of created) (selected id_of created own cursor rows)

    abbrev pub Finds : A → Type 0
    Finds x = find_first (λ y. id_of y == id_of x) rows ≡ some x

    following-after :
        (xs : List A) (x : A) (ys : List A)
        → following none ≡ xs ++ x ∷ ys
        → IsDescending (xs ++ x ∷ ys)
        → Finds x
        → following (some (id_of x)) ≡ ys
    following-after xs x ys whole descends found =
        ap
          (λ o.
            sort_by (newer id_of created)
              (select (λ y. own y && older_than id_of created o y) rows))
          found
        ∙ select-sort_by (created x) own rows
        ∙ ap (select (λ y. ltb (created y) (created x))) whole
        ∙ select-after xs x ys descends

    -- The pages from a cursor on, put together; the number bounds how many are read.
    unfoldable pub walk : ℕ → Option ℕ → List A
    walk zero cursor = []
    walk (suc fuel) cursor =
        continued (list_page id_of created own cursor limit rows) (λ c. walk fuel (some c))

    walk-following :
        (n fuel : ℕ) (cursor : Option ℕ) (xs rest : List A)
        → page_limit id_of created limit ≡ suc n
        → IsDescending (following none)
        → All Finds (following none)
        → following none ≡ xs ++ rest
        → following cursor ≡ rest
        → length rest < fuel
        → walk fuel cursor ≡ rest
    unfolding walk
    walk-following n zero cursor xs rest size descends ids whole here enough = absurd (omega arith)
    walk-following n (suc fuel) cursor xs rest size descends ids whole here enough =
        let read : list_page id_of created own cursor limit rows
            ≡ page id_of created (suc n) (take (suc (suc n)) rest) =
          rw (size, here) refl in
        elim (Bool-cases (ltb (suc n) (length rest))) [
          | inl more ↦
              let t : suc n < length rest = ground arith in
              let (ys, x, cut_here, front, end) = cut n rest t in
              let others = drop (suc n) rest in
              let at_x : following none ≡ (xs ++ ys) ++ x ∷ others =
                whole ∙ ap (λ l. xs ++ l) cut_here ∙ sym (append_assoc xs ys (x ∷ others)) in
              let found = All-last Finds (xs ++ ys) x others (subst (All Finds) at_x ids) in
              let here' =
                following-after (xs ++ ys) x others at_x (subst IsDescending at_x descends) found in
              let next =
                walk-following n fuel (some (id_of x)) ((xs ++ ys) ++ x ∷ []) others size descends
                  ids (at_x ∙ sym (append-snoc (xs ++ ys) x others)) here'
                  (omega (arith, length-drop (suc n) rest)) in
              ap (λ p. continued p (λ c. walk fuel (some c)))
                (read ∙ page-long n rest ys x t front end)
              ∙ ap (λ l. (ys ++ x ∷ []) ++ l) next
              ∙ append-snoc ys x others
              ∙ sym cut_here
          | inr last ↦
              ap (λ p. continued p (λ c. walk fuel (some c)))
                (read ∙ page-short (suc n) rest (ground arith))
        ]

    page_limit-positive : (n : ℕ) × (page_limit id_of created limit ≡ suc n)
    page_limit-positive = limit_cases limit
      where
        limit_cases : (l : ℕ) → (n : ℕ) × (page_limit id_of created l ≡ suc n)
        limit_cases zero = (49, refl)
        limit_cases (suc l) = (l, ground arith)

    -- Where no two of the owner's rows have the same instant, and each of them is the row that its
    -- id finds: reading the first page, and then page after page from each cursor for as long as
    -- there is one, up to a number of pages that is above the number of the rows, gives the owner's
    -- rows from the newest to the oldest.
    pub walk-whole :
        (fuel : ℕ)
        → IsDescending (sort_by (newer id_of created) (select own rows))
        → All Finds (sort_by (newer id_of created) (select own rows))
        → length (sort_by (newer id_of created) (select own rows)) < fuel
        → walk fuel none ≡ sort_by (newer id_of created) (select own rows)
    walk-whole fuel descends ids enough =
        let (n, size) = page_limit-positive in
        walk-following n fuel none [] (following none) size descends ids refl refl enough
