-- ===== src/Inventory/Orders.antt =====
-- services/inventory/routers/inventory.py and dependencies.py. A handler runs in one transaction; the
-- advisory lock on an ingredient at a location makes the outbound orders of the pair run one by one.
use brasaland_digital.Base.{
  ℕ, Bool, true, ltb, eqb, not, ◌&&◌, ◌||◌, Option, some, none, List, [], ◌∷◌, map, String,
  contains, concat, select, if◌then◌else◌, Result, ok, err,
}
use brasaland_digital.Base.Monad.{◌>>=◌, ◌>>◌, pure, raise, raise_if, unwrap, lift}
use brasaland_digital.AuthVerify.{Claims, get_authorized_location_slugs}
use brasaland_digital.Inventory.Store.{
  Float, Ingredient, IngredientEntry, IngredientExit, IngredientCreate, IngredientEntryCreate,
  IngredientExitCreate, Env, World, Error, http_error, key_error, integrity_error, Inventory,
}

abbrev pub slugs_by_id : List (ℕ × String)
slugs_by_id =
    (1, "medellin_centro")
    ∷ (2, "medellin_poblado")
    ∷ (3, "medellin_laureles")
    ∷ (4, "bogota_zona_rosa")
    ∷ (5, "bogota_chapinero")
    ∷ (6, "bogota_usaquen")
    ∷ (7, "bogota_norte")
    ∷ (8, "cali_san_fernando")
    ∷ (9, "cali_granada")
    ∷ (10, "cali_ciudad_jardin")
    ∷ (11, "miami_brickell")
    ∷ (12, "miami_wynwood")
    ∷ (13, "miami_coral_gables")
    ∷ (14, "miami_kendall")
    ∷ []

slug_in : ℕ → List (ℕ × String) → Option String
slug_in location_id [] = none
slug_in location_id ((k, slug) ∷ rest) =
    let later = slug_in location_id rest in if eqb k location_id then some slug else later

-- `LOCATION_ID_TO_SLUG[location_id]`, where `none` is the `KeyError`.
unfoldable pub location_id_to_slug : ℕ → Option String
unfolding slug_in
location_id_to_slug location_id = slug_in location_id slugs_by_id

within : ℕ → String → Option (List String) → Result Error ℕ
within location_id slug none = ok location_id
within location_id slug (some authorized) =
    if contains slug authorized
    then ok location_id
    else err (http_error 403 "Location access denied")

requested : Claims → ℕ → Option String → Result Error ℕ
unfolding within
requested claims location_id none = err key_error
requested claims location_id (some slug) =
    within location_id slug (get_authorized_location_slugs claims)

unfoldable pub assert_authorized_location_id : Claims → ℕ → Result Error ℕ
unfolding requested
assert_authorized_location_id claims location_id =
    requested claims location_id (location_id_to_slug location_id)

-- The query parameter is between 1 and 14; FastAPI answers 422 to any other.
unfoldable pub require_authorized_location_id : Claims → ℕ → Result Error ℕ
require_authorized_location_id claims location_id =
    if ltb location_id 1 || ltb 14 location_id
    then err (http_error 422 "location_id")
    else assert_authorized_location_id claims location_id

pub record IngredientResponse : Type 0 where
  pub ingredient : Ingredient
  pub current_stock : Float

abbrev pub valid_exit_reasons : List String
valid_exit_reasons = "consumption" ∷ "waste" ∷ []

abbrev pub not_found : Error
not_found = http_error 404 "Ingredient not found"

module _ (env : Env) where
  -- `coalesce(sum(...), 0.0)`: there is no sum of no rows.
  unfoldable pub total : List Float → Float
  total [] = env.floats.zero_float
  total (q ∷ qs) = env.floats.sum (q ∷ qs)

  -- The rows of an ingredient at a location.
  unfoldable pub entries_of : ℕ → ℕ → List IngredientEntry → List Float
  entries_of ingredient_id location_id rows =
      map (λ r. r.quantity)
        (select (λ r. eqb r.ingredient_id ingredient_id && eqb r.location_id location_id) rows)

  unfoldable pub exits_of : ℕ → ℕ → List IngredientExit → List Float
  exits_of ingredient_id location_id rows =
      map (λ r. r.quantity)
        (select (λ r. eqb r.ingredient_id ingredient_id && eqb r.location_id location_id) rows)

  unfoldable pub entries_total : ℕ → ℕ → List IngredientEntry → Float
  entries_total ingredient_id location_id rows = total (entries_of ingredient_id location_id rows)

  unfoldable pub exits_total : ℕ → ℕ → List IngredientExit → Float
  exits_total ingredient_id location_id rows = total (exits_of ingredient_id location_id rows)

  unfoldable pub current_stock : ℕ → ℕ → World env → Float
  current_stock ingredient_id location_id w =
      env.floats.minus (entries_total ingredient_id location_id (env.entries.rows w.entries))
        (exits_total ingredient_id location_id (env.exits.rows w.exits))

  -- All ingredients, or those with an id, each with its stock at the location.
  unfoldable pub fetch_ingredients_with_stock : ℕ → Option ℕ → World env → List (Ingredient × Float)
  fetch_ingredients_with_stock location_id none w =
      map (λ r. (r, current_stock r.id location_id w)) (env.ingredients.rows w.ingredients)
  fetch_ingredients_with_stock location_id (some ingredient_id) w =
      map (λ r. (r, current_stock r.id location_id w))
        (select (λ r. eqb r.id ingredient_id) (env.ingredients.rows w.ingredients))

  first_or_404 : List (Ingredient × Float) → Inventory env (Ingredient × Float)
  first_or_404 [] = raise not_found
  first_or_404 (row ∷ rows) = pure row

  unfoldable pub get_ingredient_with_stock_or_404 : ℕ → ℕ → Inventory env (Ingredient × Float)
  unfolding first_or_404
  get_ingredient_with_stock_or_404 ingredient_id location_id w =
      first_or_404 (fetch_ingredients_with_stock location_id (some ingredient_id) w) w

  unfoldable pub get_ingredient_or_404 : ℕ → Inventory env Ingredient
  get_ingredient_or_404 ingredient_id w =
      unwrap (env.ingredients.get ingredient_id w.ingredients) not_found w

  unfoldable pub list_products : Claims → ℕ → Inventory env (List IngredientResponse)
  list_products claims location_id = do
    location ← lift (require_authorized_location_id claims location_id)
    λ w. (
      ok (
          map (λ row. record { ingredient = row.0; current_stock = row.1 })
            (fetch_ingredients_with_stock location none w)),
      w,
    )

  unfoldable pub get_product : Claims → ℕ → ℕ → Inventory env IngredientResponse
  get_product claims ingredient_id location_id = do
    location ← lift (require_authorized_location_id claims location_id)
    row ← get_ingredient_with_stock_or_404 ingredient_id location
    pure (record { ingredient = row.0; current_stock = row.1 })

  -- For a request that `require_admin` let pass.
  unfoldable pub create_product : IngredientCreate → Inventory env IngredientResponse
  create_product payload w =
      let row : Ingredient = record {
        id = env.ingredients.next_key w.ingredients;
        name = payload.name;
        sku = payload.sku;
        unit = payload.unit;
        category = payload.category;
        country = payload.country;
      } in
      if env.ingredients.accepts payload.sku w.ingredients
      then (
        ok (record { ingredient = row; current_stock = env.floats.zero_float }),
        record w { ingredients = env.ingredients.insert row w.ingredients },
      )
      else (err integrity_error, w)

  abbrev pub entry_row : ℕ → String → IngredientEntryCreate → World env → IngredientEntry
  entry_row now user_uuid payload w = record {
    id = env.entries.next_key w.entries;
    ingredient_id = payload.ingredient_id;
    quantity = payload.quantity;
    unit_cost = payload.unit_cost;
    supplier_name = payload.supplier_name;
    location_id = payload.location_id;
    created_at = now;
    user_uuid = user_uuid;
  }

  unfoldable pub add_entry : ℕ → String → IngredientEntryCreate → Inventory env IngredientEntry
  add_entry now user_uuid payload w =
      let row = entry_row now user_uuid payload w in
      (ok row, record w { entries = env.entries.insert row w.entries })

  unfoldable pub create_inbound_order :
      ℕ → String → Claims → IngredientEntryCreate → Inventory env IngredientEntry
  create_inbound_order now user_uuid claims payload = do
    _ ← lift (assert_authorized_location_id claims payload.location_id)
    _ ← get_ingredient_or_404 payload.ingredient_id
    add_entry now user_uuid payload

  abbrev pub exit_row : ℕ → String → IngredientExitCreate → World env → IngredientExit
  exit_row now user_uuid payload w = record {
    id = env.exits.next_key w.exits;
    ingredient_id = payload.ingredient_id;
    quantity = payload.quantity;
    reason = payload.reason;
    location_id = payload.location_id;
    created_at = now;
    user_uuid = user_uuid;
  }

  unfoldable pub add_exit : ℕ → String → IngredientExitCreate → Inventory env IngredientExit
  add_exit now user_uuid payload w =
      let row = exit_row now user_uuid payload w in
      (ok row, record w { exits = env.exits.insert row w.exits })

  unfoldable pub insufficient : Ingredient → Float → Float → Error
  insufficient ingredient available requested_quantity = http_error 400 (
      concat "Insufficient stock for ingredient '" (
        concat ingredient.name (
          concat "'. Available: " (
            concat (env.floats.shown available)
              (concat ", requested: " (concat (env.floats.shown requested_quantity) "."))))))

  unfoldable pub create_outbound_order :
      ℕ → String → Claims → IngredientExitCreate → Inventory env IngredientExit
  create_outbound_order now user_uuid claims payload = do
    _ ← lift (assert_authorized_location_id claims payload.location_id)
    raise_if (not (contains payload.reason valid_exit_reasons))
        (http_error 422 "reason must be \"consumption\" or \"waste\"")
    _ ← get_ingredient_or_404 payload.ingredient_id
    row ← get_ingredient_with_stock_or_404 payload.ingredient_id payload.location_id
    raise_if (env.floats.is_less (env.floats.minus row.1 payload.quantity) env.floats.zero_float)
        (insufficient row.0 row.1 payload.quantity)
    add_exit now user_uuid payload

-- The requests that write, from any user and in any order.
pub data Request : Type 0 where
  creates : IngredientCreate → Request
  brings_in : String → Claims → IngredientEntryCreate → Request
  takes_out : String → Claims → IngredientExitCreate → Request

module _ (env : Env) where
  -- `PositiveQuantity` with its validator.
  unfoldable pub admits_quantity : Float → Bool
  admits_quantity q = env.floats.is_less env.floats.zero_float q && env.floats.is_finite q

  -- `Field(default=None, ge=0)`
  unfoldable pub admits_cost : Option Float → Bool
  admits_cost none = true
  admits_cost (some cost) = env.floats.is_at_most env.floats.zero_float cost

  -- A body that its schema does not admit is answered with 422 before the handler.
  unfoldable pub serve : ℕ → Request → World env → World env
  serve now (creates payload) w = (create_product env payload w).1
  serve now (brings_in user claims payload) w =
      if admits_quantity payload.quantity && admits_cost payload.unit_cost
      then (create_inbound_order env now user claims payload w).1
      else w
  serve now (takes_out user claims payload) w =
      if admits_quantity payload.quantity
      then (create_outbound_order env now user claims payload w).1
      else w

  unfoldable pub run : List (ℕ × Request) → World env → World env
  run [] w = w
  run ((now, r) ∷ requests) w = run requests (serve now r w)
