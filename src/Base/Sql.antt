-- ===== src/Base/Sql.antt =====
-- The interface of a table of a SQL database with a primary key and a unique column, as SQLModel
-- sessions use it, with the documented behaviour as laws over the rows in the order of their keys.
use brasaland_digital.Base.Names.{
  ℕ, suc, max, ◌≡◌, ◌<◌, refl, Bool, not, Option, List, [], ◌∷◌, ◌++◌, String, ◌==◌, eqb, arith,
}
use brasaland_digital.Base.Lists.{length, All, All-map, find, exists, update_where}

module _ {R : Type 0} (key : R → ℕ) (unique : R → String) where
  abbrev pub has_key : ℕ → R → Bool
  has_key k r = eqb (key r) k

  abbrev pub has_unique : String → R → Bool
  has_unique value r = unique r == value

  pub record SqlTable : Type 1 where
    pub Tab : Type 0
    pub rows : Tab → List R
    -- The key that the database gives to the next row.
    pub next_key : Tab → ℕ
    -- A row is refused with `IntegrityError` where its unique column has a value of another row.
    pub accepts : String → Tab → Bool
    pub insert : R → Tab → Tab
    pub get : ℕ → Tab → Option R
    pub first : String → Tab → Option R
    pub update : (R → R) → ℕ → Tab → Tab
    pub next_key-above : (t : Tab) → All (λ r. key r < next_key t) (rows t)
    pub accepts-exists :
        (value : String) (t : Tab) → accepts value t ≡ not (exists (has_unique value) (rows t))
    pub rows-insert : (r : R) (t : Tab) → rows (insert r t) ≡ rows t ++ r ∷ []
    pub get-find : (k : ℕ) (t : Tab) → get k t ≡ find (has_key k) (rows t)
    pub first-find : (value : String) (t : Tab) → first value t ≡ find (has_unique value) (rows t)
    pub rows-update :
        (f : R → R) (k : ℕ) (t : Tab) → rows (update f k t) ≡ update_where f (has_key k) (rows t)

  abbrev pub max_key : List R → ℕ
  max_key [] = 0
  max_key (r ∷ rs) = max (key r) (max_key rs)

  pub max_key-above : (rs : List R) → All (λ r. key r < suc (max_key rs)) rs
  max_key-above [] = tt
  max_key-above (r ∷ rs) = (omega arith, All-map rs (λ s h. ground (arith, h)) (max_key-above rs))

  -- A list of rows that counts its keys on from the greatest one meets the interface.
  abbrev pub list_sql : SqlTable
  list_sql = record {
    Tab = List R;
    rows = λ t. t;
    next_key = λ t. suc (max_key t);
    accepts = λ value t. not (exists (has_unique value) t);
    insert = λ r t. t ++ r ∷ [];
    get = λ k t. find (has_key k) t;
    first = λ value t. find (has_unique value) t;
    update = λ f k t. update_where f (has_key k) t;
    next_key-above = max_key-above;
    accepts-exists = λ value t. refl;
    rows-insert = λ r t. refl;
    get-find = λ k t. refl;
    first-find = λ value t. refl;
    rows-update = λ f k t. refl;
  }

-- A table to which rows are only added, with keys that the database gives.
pub record LogTable (R : Type 0) : Type 1 where
  pub Tab : Type 0
  pub rows : Tab → List R
  pub next_key : Tab → ℕ
  pub insert : R → Tab → Tab
  pub rows-insert : (r : R) (t : Tab) → rows (insert r t) ≡ rows t ++ r ∷ []

abbrev pub list_log : (R : Type 0) → LogTable R
list_log R = record {
  Tab = List R;
  rows = λ t. t;
  next_key = λ t. suc (length t);
  insert = λ r t. t ++ r ∷ [];
  rows-insert = λ r t. refl;
}
