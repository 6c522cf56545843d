-- ===== src/Base/Regex.antt =====
-- Python's `re` module, as the services use it. The engine is a parameter; a pattern is the text and
-- the flags with which it is compiled.
use brasaland_digital.Base.Names.{Bool, false, Option, List, [], ◌∷◌, String}
use brasaland_digital.Base.Text.{concat}

pub record Pattern : Type 0 where
  pub source : String
  pub ignore_case : Bool
  pub dot_all : Bool

pub record Match : Type 0 where
  -- `m.group(0)`
  pub text : String
  -- `m.groups()` and `m.groupdict().items()`; `none` is a group that took no part.
  pub groups : List (Option String)
  pub named : List (String × Option String)

pub record Engine : Type 0 where
  pub search : Pattern → String → Option Match
  -- `pattern.match(text)`: only at the start.
  pub starts : Pattern → String → Option Match
  -- `pattern.finditer(text)`
  pub find_all : Pattern → String → List Match
  -- `pattern.sub(replacement, text)`
  pub sub : Pattern → String → String → String

-- Literals that stand beside each other.
unfoldable pub joined : List String → String
joined [] = ""
joined (s ∷ rest) = concat s (joined rest)

-- A pattern that is written where it is used, without flags.
abbrev pub plain : String → Pattern
plain s = record { source = s; ignore_case = false; dot_all = false }
