-- ===== src/Base/Tables.antt =====
-- The interface of a document table, `tinydb.table.Table`, with the documented behaviour of its
-- operations as laws over the list of its rows in order of insertion.
use brasaland_digital.Base.Names.{ℕ, ◌≡◌, refl, Bool, Option, List, [], ◌∷◌, ◌++◌}
use brasaland_digital.Base.Lists.{length, find, exists, select, reject, update_where}

pub record Table (R : Type 0) : Type 1 where
  pub Tab : Type 0
  pub all : Tab → List R
  pub insert : R → Tab → Tab
  pub get : (R → Bool) → Tab → Option R
  pub holds : (R → Bool) → Tab → Bool
  -- The new table, and the number of rows that were changed or removed.
  pub update : (R → R) → (R → Bool) → Tab → Tab × ℕ
  pub remove : (R → Bool) → Tab → Tab × ℕ
  pub all-insert : (r : R) (t : Tab) → all (insert r t) ≡ all t ++ r ∷ []
  pub get-find : (p : R → Bool) (t : Tab) → get p t ≡ find p (all t)
  pub holds-exists : (p : R → Bool) (t : Tab) → holds p t ≡ exists p (all t)
  pub all-update :
      (f : R → R) (p : R → Bool) (t : Tab) → all (update f p t).0 ≡ update_where f p (all t)
  pub count-update :
      (f : R → R) (p : R → Bool) (t : Tab) → (update f p t).1 ≡ length (select p (all t))
  pub all-remove : (p : R → Bool) (t : Tab) → all (remove p t).0 ≡ reject p (all t)
  pub count-remove : (p : R → Bool) (t : Tab) → (remove p t).1 ≡ length (select p (all t))

-- A table kept as the list of its rows meets the interface.
abbrev pub list_table : (R : Type 0) → Table R
list_table R = record {
  Tab = List R;
  all = λ t. t;
  insert = λ r t. t ++ r ∷ [];
  get = find;
  holds = exists;
  update = λ f p t. (update_where f p t, length (select p t));
  remove = λ p t. (reject p t, length (select p t));
  all-insert = λ r t. refl;
  get-find = λ p t. refl;
  holds-exists = λ p t. refl;
  all-update = λ f p t. refl;
  count-update = λ f p t. refl;
  all-remove = λ p t. refl;
  count-remove = λ p t. refl;
}
