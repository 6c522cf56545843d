-- ===== src/Inventory/Stock.antt =====
-- What an outbound order of services/inventory reads of the stock, and what the handlers write.
use brasaland_digital.Base.{
  ℕ, ◌≡◌, true, false, ◌&&◌, List, [], ◌∷◌, ◌++◌, String, eqb, contains, List-cases, Result-cases,
  Option-cases, select, map, arith, if◌then◌else◌, ok, err, Bool-cases, inl, inr, ◌⊎◌, some,
}
use brasaland_digital.AuthVerify.{Claims}
use brasaland_digital.Inventory.Store.{
  IngredientExit, IngredientEntryCreate, IngredientExitCreate, Ingredient, Float, Env, World, Error,
}
use brasaland_digital.Inventory.Orders.{
  entries_total, exits_total, exits_of, current_stock, fetch_ingredients_with_stock,
  get_ingredient_with_stock_or_404, get_ingredient_or_404, assert_authorized_location_id, add_entry,
  create_inbound_order, add_exit, create_outbound_order, valid_exit_reasons, not_found,
}

module _ (env : Env) where
  abbrev pub brought : ℕ → ℕ → World env → Float
  brought i l w = entries_total env i l (env.entries.rows w.entries)

  abbrev pub taken : ℕ → ℕ → World env → Float
  taken i l w = exits_total env i l (env.exits.rows w.exits)

  -- What is left of the stock after the quantity, as it is computed with rounding, is not below zero.
  abbrev pub IsEnough : ℕ → ℕ → Float → World env → Type 0
  IsEnough i l q w =
      env.floats.is_less (env.floats.minus (env.floats.minus (brought i l w) (taken i l w)) q)
        env.floats.zero_float
      ≡ false

  pub exits_of-append :
      (i l : ℕ) (rows : List IngredientExit) (r : IngredientExit)
      → exits_of env i l (rows ++ r ∷ [])
        ≡ exits_of env i l rows
          ++ (if eqb r.ingredient_id i && eqb r.location_id l then r.quantity ∷ [] else [])
  unfolding exits_of
  exits_of-append i l [] r = ground arith
  exits_of-append i l (x ∷ xs) r = ground (arith, exits_of-append i l xs r)

  first_stock :
      (i l : ℕ) (w : World env) (rs : List Ingredient) (row : Ingredient × Float)
      (rest : List (Ingredient × Float))
      → map (λ r. (r, current_stock env r.id l w)) (select (λ r. eqb r.id i) rs) ≡ row ∷ rest
      → row.1 ≡ current_stock env i l w
  first_stock i l w [] row rest h = absurd (ground arith)
  first_stock i l w (x ∷ xs) row rest h = elim (Bool-cases (eqb x.id i)) [
    | inl own ↦ ground arith
    | inr other ↦ first_stock i l w xs row rest (ground arith)
  ]

  pub fetched_stock :
      (i l : ℕ) (w : World env) (row : Ingredient × Float)
      → (get_ingredient_with_stock_or_404 env i l w).0 ≡ ok row
      → row.1 ≡ current_stock env i l w
  unfolding get_ingredient_with_stock_or_404 fetch_ingredients_with_stock
  fetched_stock i l w row h = elim (List-cases (fetch_ingredients_with_stock env l (some i) w)) [
    | inl none_found ↦ absurd (ground arith)
    | inr (x, rest, e) ↦
        let same : x ≡ row = ground arith in
        ground (arith, first_stock i l w (env.ingredients.rows w.ingredients) x rest e)
  ]

  pub fetched_state : (i l : ℕ) (w : World env) → (get_ingredient_with_stock_or_404 env i l w).1 ≡ w
  unfolding get_ingredient_with_stock_or_404
  fetched_state i l w = elim (List-cases (fetch_ingredients_with_stock env l (some i) w)) [
    | inl none_found ↦ ground arith
    | inr (x, rest, e) ↦ ground arith
  ]

  assert_same : (claims : Claims) (l k : ℕ) → assert_authorized_location_id claims l ≡ ok k → k ≡ l
  unfolding assert_authorized_location_id
  assert_same claims l k h = ground arith

  -- An outbound order that returns has an authorized location, a valid reason and a known ingredient,
  -- does not exceed the stock, and does what `add_exit` does.
  pub outbound-eq-ok :
      (now : ℕ) (user : String) (claims : Claims) (payload : IngredientExitCreate) (w : World env)
      (r : IngredientExit)
      → (create_outbound_order env now user claims payload w).0 ≡ ok r
      → (assert_authorized_location_id claims payload.location_id ≡ ok payload.location_id)
        × (contains payload.reason valid_exit_reasons ≡ true)
        × IsEnough payload.ingredient_id payload.location_id payload.quantity w
        × (create_outbound_order env now user claims payload w ≡ add_exit env now user payload w)
  unfolding create_outbound_order get_ingredient_or_404 current_stock
  outbound-eq-ok now user claims payload w r h =
      let i = payload.ingredient_id in
      let l = payload.location_id in
      elim (Result-cases (get_ingredient_with_stock_or_404 env i l w).0) [
        | inl (row, fetched) ↦ elim (Result-cases (assert_authorized_location_id claims l)) [
          | inl (k, allowed) ↦
              let same = assert_same claims l k allowed in
              let stock = fetched_stock i l w row fetched in
              let state = fetched_state i l w in ground arith
          | inr (e, refused) ↦ absurd (ground arith)
        ]
        | inr (e, failed) ↦ absurd (ground arith)
      ]

  pub outbound_fails :
      (now : ℕ) (user : String) (claims : Claims) (payload : IngredientExitCreate) (w : World env)
      (e : Error)
      → (create_outbound_order env now user claims payload w).0 ≡ err e
      → (create_outbound_order env now user claims payload w).1 ≡ w
  unfolding create_outbound_order get_ingredient_or_404 add_exit
  outbound_fails now user claims payload w e h =
      ground (arith, fetched_state payload.ingredient_id payload.location_id w)

  -- An inbound order that returns has an authorized location, and does what `add_entry` does; one that
  -- raises writes nothing.
  pub inbound-cases :
      (now : ℕ) (user : String) (claims : Claims) (payload : IngredientEntryCreate) (w : World env)
      → ((create_inbound_order env now user claims payload w ≡ add_entry env now user payload w)
          × (assert_authorized_location_id claims payload.location_id ≡ ok payload.location_id))
        ⊎ ((e : Error) × (create_inbound_order env now user claims payload w ≡ (err e, w)))
  unfolding create_inbound_order get_ingredient_or_404
  inbound-cases now user claims payload w =
      elim (Result-cases (assert_authorized_location_id claims payload.location_id)) [
        | inr (e, refused) ↦ inr (e, ground arith)
        | inl (k, allowed) ↦
            let same = assert_same claims payload.location_id k allowed in
            elim (Option-cases (env.ingredients.get payload.ingredient_id w.ingredients)) [
              | inl unknown ↦ inr (not_found, ground arith)
              | inr (q, known) ↦ inl (ground arith, ground arith)
            ]
      ]
