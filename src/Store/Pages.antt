-- ===== src/Store/Pages.antt =====
-- Lists that are read page by page: the cursor of the two methods `ListByUser` in
-- gateway/internal/store/jobs.go and files.go, over any rows with an id and an instant. A limit of 0
-- stands for every limit that is not positive. Rows of the same instant come in the table's order.
pub mod Walk
mod Examples
use one_click_agent.Prelude.{
  suc, ◌-◌, ◌<◌, ℕ, ◌+◌, ◌&&◌, Bool, false, Option, none, some, List, [], ◌∷◌, ◌++◌, ltb, ◌==◌,
  select, take, get_elem?, find_first, length, All, if◌then◌else◌, arith, ◌≡◌, refl,
}
use one_click_agent.Store.Rows.{sort_by, insert_by}

module _ {A : Type 0} (id_of created : A → ℕ) where
  -- ORDER BY created_at DESC.
  abbrev pub newer : A → A → Bool
  newer a b = ltb (created b) (created a)

  -- created_at < (SELECT created_at … WHERE id = …).
  abbrev pub older_than : Option A → A → Bool
  older_than none y = false
  older_than (some x) y = ltb (created y) (created x)

  abbrev pub selected : (A → Bool) → Option ℕ → List A → List A
  selected own none rows = select own rows
  selected own (some c) rows =
      select (λ y. own y && older_than (find_first (λ x. id_of x == c) rows) y) rows

  abbrev pub page_limit : ℕ → ℕ
  page_limit limit = if limit == 0 then 50 else limit

  abbrev pub cursor_of : Option A → Option ℕ
  cursor_of none = none
  cursor_of (some x) = some (id_of x)

  -- One row more than the limit tells that there is a next page.
  abbrev pub page : ℕ → List A → List A × Option ℕ
  page n found =
      if ltb n (length found)
      then (take n found, cursor_of (get_elem? found (n - 1)))
      else (found, none)

  abbrev pub list_page : (A → Bool) → Option ℕ → ℕ → List A → List A × Option ℕ
  list_page own cursor limit rows =
      let n = page_limit limit in page n (take (suc n) (sort_by newer (selected own cursor rows)))
