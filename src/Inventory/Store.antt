-- ===== src/Inventory/Store.antt =====
-- services/inventory/models.py and schemas.py. Ids are natural numbers. A quantity is a floating point
-- number, known by its bits; what is computed with it is a parameter, of which nothing is assumed.
use brasaland_digital.Base.{ℕ, Bool, Option, List, String}
use brasaland_digital.Base.Monad.{Action}
use brasaland_digital.Base.Sql.{SqlTable, LogTable}

-- A floating point number of 64 bits.
pub record Float : Type 0 where
  pub bits : ℕ

-- The arithmetic of the database and of Python, with its rounding: `SUM` of one row or more, the
-- difference, the two orders, `math.isfinite`, `0.0` and `str`.
pub record Arithmetic : Type 0 where
  pub zero_float : Float
  pub sum : List Float → Float
  pub minus : Float → Float → Float
  pub is_less : Float → Float → Bool
  pub is_at_most : Float → Float → Bool
  pub is_finite : Float → Bool
  pub shown : Float → String

pub record Ingredient : Type 0 where
  pub id : ℕ
  pub name : String
  pub sku : String
  pub unit : String
  pub category : String
  pub country : String

pub record IngredientEntry : Type 0 where
  pub id : ℕ
  pub ingredient_id : ℕ
  pub quantity : Float
  pub unit_cost : Option Float
  pub supplier_name : String
  pub location_id : ℕ
  pub created_at : ℕ
  pub user_uuid : String

pub record IngredientExit : Type 0 where
  pub id : ℕ
  pub ingredient_id : ℕ
  pub quantity : Float
  pub reason : String
  pub location_id : ℕ
  pub created_at : ℕ
  pub user_uuid : String

pub record IngredientCreate : Type 0 where
  pub name : String
  pub sku : String
  pub unit : String
  pub category : String
  pub country : String

pub record IngredientEntryCreate : Type 0 where
  pub ingredient_id : ℕ
  pub quantity : Float
  pub unit_cost : Option Float
  pub supplier_name : String
  pub location_id : ℕ

pub record IngredientExitCreate : Type 0 where
  pub ingredient_id : ℕ
  pub quantity : Float
  pub reason : String
  pub location_id : ℕ

abbrev pub id_of : Ingredient → ℕ
id_of r = r.id

abbrev pub sku_of : Ingredient → String
sku_of r = r.sku

pub record Env : Type 1 where
  pub floats : Arithmetic
  pub ingredients : SqlTable id_of sku_of
  pub entries : LogTable IngredientEntry
  pub exits : LogTable IngredientExit

pub record World (env : Env) : Type 0 where
  pub ingredients : env.ingredients.Tab
  pub entries : env.entries.Tab
  pub exits : env.exits.Tab

-- `HTTPException` with its status and detail; a `KeyError`; the database's `IntegrityError`.
pub data Error : Type 0 where
  http_error : ℕ → String → Error
  key_error : Error
  integrity_error : Error

abbrev pub Inventory : Env → Type 0 → Type 0
Inventory env A = Action Error (World env) A
