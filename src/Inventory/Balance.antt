-- ===== src/Inventory/Balance.antt =====
-- What an order of services/inventory does to the stock, and when an outbound order is served.
use brasaland_digital.Base.{
  ℕ, ◌≡◌, true, some, List, String, contains, arith, ok, Option-cases, inl, inr,
}
use brasaland_digital.AuthVerify.{Claims}
use brasaland_digital.Inventory.Store.{IngredientExit, IngredientExitCreate, Ingredient, Env, World}
use brasaland_digital.Inventory.Orders.{
  get_ingredient_or_404, create_outbound_order, valid_exit_reasons,
}
use brasaland_digital.Inventory.Locations.{IsAuthorized}
use brasaland_digital.Inventory.Stock.{IsEnough}

module _ (env : Env) where
  -- The conditions of an outbound order.
  abbrev pub IsServable : Claims → IngredientExitCreate → World env → Type 0
  IsServable claims payload w =
      IsAuthorized claims payload.location_id
      × (contains payload.reason valid_exit_reasons ≡ true)
      × ((q : Ingredient) × (env.ingredients.get payload.ingredient_id w.ingredients ≡ some q))
      × IsEnough env payload.ingredient_id payload.location_id payload.quantity w

  pub known_ingredient :
      (now : ℕ) (user : String) (claims : Claims) (payload : IngredientExitCreate) (w : World env)
      (r : IngredientExit)
      → (create_outbound_order env now user claims payload w).0 ≡ ok r
      → (q : Ingredient) × (env.ingredients.get payload.ingredient_id w.ingredients ≡ some q)
  unfolding create_outbound_order get_ingredient_or_404
  known_ingredient now user claims payload w r h =
      elim (Option-cases (env.ingredients.get payload.ingredient_id w.ingredients)) [
        | inl unknown ↦ absurd (ground arith)
        | inr found ↦ found
      ]
