-- ===== src/Agent/Env.antt =====
-- What the support agent's modules take from outside the repository.
use brasaland_digital.Base.{ℕ, Option, String}
use brasaland_digital.Base.Regex.{Engine}

pub record Env : Type 0 where
  pub re : Engine
  -- `str.lower`
  pub lower : String → String
  -- `str(uuid.uuid4())`, by the number of events before it
  pub uuid : ℕ → String
  -- `datetime.isoformat` and `fromisoformat(...).timestamp()`, in seconds; `none` is the `ValueError`
  pub isoformat : ℕ → String
  pub timestamp_of : String → Option ℕ
