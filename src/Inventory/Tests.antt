-- ===== src/Inventory/Tests.antt =====
-- The theorems on services/inventory at concrete inputs.
use brasaland_digital.Base.{
  ℕ, ◌≡◌, refl, ◌+◌, ◌-◌, ◌*◌, ◌/◌, ◌%◌, ltb, leb, concat, decimal, true, false, some, none, List,
  [], ◌∷◌, eqb, arith, if◌then◌else◌, err,
}
use brasaland_digital.Base.Sql.{list_sql, list_log}
use brasaland_digital.AuthVerify.{Claims, get_authorized_location_slugs}
use brasaland_digital.Inventory.Store.{
  Ingredient, IngredientEntry, IngredientExit, IngredientEntryCreate, IngredientExitCreate, Env,
  World, id_of, sku_of, Float, Arithmetic, key_error,
}
use brasaland_digital.Inventory.Orders.{
  assert_authorized_location_id, create_inbound_order, create_outbound_order, current_stock,
  Request, brings_in, takes_out, run, total, entries_of, exits_of, entries_total, exits_total,
  get_ingredient_or_404, get_ingredient_with_stock_or_404, fetch_ingredients_with_stock, add_exit,
  location_id_to_slug,
}
use brasaland_digital.Inventory.Locations.{order_outside_catalogue}
use brasaland_digital.Inventory.Recorded.{IsRecorded, run-IsRecorded}

-- Integers for floating point numbers: the bits `2 n` stand for `n`, and `2 n + 1` for `-(n + 1)`.
abbrev whole : ℕ → Float
whole n = record { bits = 2 * n }

abbrev above_zero : Float → ℕ
above_zero x = if eqb (x.bits % 2) 0 then x.bits / 2 else 0

abbrev below_zero : Float → ℕ
below_zero x = if eqb (x.bits % 2) 0 then 0 else x.bits / 2 + 1

abbrev difference : ℕ → ℕ → Float
difference a b = if leb b a then whole (a - b) else record { bits = 2 * (b - a) - 1 }

abbrev plus : Float → Float → Float
plus x y = difference (above_zero x + above_zero y) (below_zero x + below_zero y)

abbrev sum_all : List Float → Float
sum_all [] = whole 0
sum_all (x ∷ xs) = plus x (sum_all xs)

abbrev demo_floats : Arithmetic
demo_floats = record {
  zero_float = whole 0;
  sum = sum_all;
  minus = λ x y. difference (above_zero x + below_zero y) (below_zero x + above_zero y);
  is_less = λ x y. ltb (above_zero x + below_zero y) (above_zero y + below_zero x);
  is_at_most = λ x y. leb (above_zero x + below_zero y) (above_zero y + below_zero x);
  is_finite = λ x. true;
  shown = λ x.
      if ltb 0 (below_zero x) then concat "-" (decimal (below_zero x)) else decimal (above_zero x);
}

abbrev demo : Env
demo = record {
  floats = demo_floats;
  ingredients = list_sql id_of sku_of;
  entries = list_log IngredientEntry;
  exits = list_log IngredientExit;
}

abbrev brisket : Ingredient
brisket = record {
  id = 1;
  name = "Beef brisket";
  sku = "BRS-BEEF-001";
  unit = "kg";
  category = "meat";
  country = "CO";
}

-- Eight units of brisket in Laureles.
abbrev stocked : World demo
stocked = record {
  ingredients = brisket ∷ [];
  entries =
      record {
        id = 1;
        ingredient_id = 1;
        quantity = whole 8;
        unit_cost = none;
        supplier_name = "Carnes";
        location_id = 3;
        created_at = 0;
        user_uuid = "1";
      }
      ∷ [];
  exits = [];
}

abbrev cook : Claims
cook = record {
  sub = some "4";
  user_id = some 4;
  is_admin = some false;
  token_type = none;
  jti = none;
  location_slug = some "medellin_laureles";
  authorized_locations = some ("medellin_laureles" ∷ []);
  svc = none;
  exp = 100;
}

abbrev five_out : IngredientExitCreate
five_out = record { ingredient_id = 1; quantity = whole 5; reason = "consumption"; location_id = 3 }

abbrev two_in : IngredientEntryCreate
two_in = record {
  ingredient_id = 1;
  quantity = whole 2;
  unit_cost = none;
  supplier_name = "Carnes";
  location_id = 3;
}

abbrev far_out : IngredientExitCreate
far_out = record five_out { location_id = 15 }

abbrev far_in : IngredientEntryCreate
far_in = record two_in { location_id = 15 }

abbrev requests : List (ℕ × Request)
requests =
    (1, takes_out "4" cook five_out)
    ∷ (2, takes_out "4" cook five_out)
    ∷ (3, brings_in "4" cook two_in)
    ∷ []

stocked-IsRecorded : IsRecorded demo stocked
unfolding location_id_to_slug
stocked-IsRecorded = ((((brisket, refl), ("medellin_laureles", refl), refl, refl), tt), tt)

run-IsRecorded_example : IsRecorded demo (run demo requests stocked)
run-IsRecorded_example = run-IsRecorded demo requests stocked stocked-IsRecorded

-- Three of the eight units are left.
three_left :
    current_stock demo 1 3 (create_outbound_order demo 1 "4" cook five_out stocked).1 ≡ whole 3
unfolding create_outbound_order assert_authorized_location_id get_ingredient_or_404
    get_ingredient_with_stock_or_404 fetch_ingredients_with_stock current_stock entries_total
    exits_total entries_of exits_of total add_exit location_id_to_slug get_authorized_location_slugs
three_left = refl

order_outside_catalogue_example :
    (create_inbound_order demo 1 "4" cook far_in stocked ≡ (err key_error, stocked))
    × (create_outbound_order demo 1 "4" cook far_out stocked ≡ (err key_error, stocked))
order_outside_catalogue_example =
    order_outside_catalogue demo 1 "4" cook far_in far_out stocked (omega arith) (omega arith)
