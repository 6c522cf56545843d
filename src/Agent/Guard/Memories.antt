-- ===== src/Agent/Guard/Memories.antt =====
-- data/pipelines/guardrails.py: the answer of a user to a proposal to remember something.
use Prim.Native.String.{String}
use brasaland_digital.Base.{
  Bool, true, false, not, ◌||◌, Option, some, none, is_some, List, [], ◌∷◌, is_blank, strip,
  if◌then◌else◌,
}
use brasaland_digital.Base.Affixes.{strip_of, starts_with}
use brasaland_digital.Agent.Env.{Env}
use brasaland_digital.Agent.Memory.Screen.{or_text}
use brasaland_digital.Agent.Guard.Patterns.{
  memory_approve, memory_edit, memory_refuse_store, bare_affirm, bare_no, trailing_not_clause,
}
use brasaland_digital.Agent.Guard.Input.{occurs, is_small_talk}

pub data MemoryDecision : Type 0 where
  approve : MemoryDecision
  reject : MemoryDecision
  edit : String → MemoryDecision

-- `len(s) > 1`
abbrev is_longer : String → Bool
is_longer String.[] = false
is_longer (String.◌∷◌ c String.[]) = false
is_longer (String.◌∷◌ c (String.◌∷◌ d s)) = true

-- The last group whose name begins with v and that has a text that is not blank.
unfoldable pub last_named : List (String × Option String) → Option String
last_named [] = none
last_named (group ∷ rest) =
    let value = strip (or_text group.1 "") in
    elim (last_named rest) [
      | some later ↦ some later
      | none ↦ if not (starts_with group.0 "v") || is_blank value then none else some value
    ]

-- The last group with a text of more than one character.
unfoldable pub last_group : List (Option String) → Option String
last_group [] = none
last_group (group ∷ rest) =
    let value = strip (or_text group "") in
    elim (last_group rest) [
      | some later ↦ some later
      | none ↦ if is_longer value then some value else none
    ]

module _ (env : Env) where
  -- The value before a contrast such as `, not 11`.
  unfoldable pub trimmed_edit : String → Option String
  trimmed_edit edited =
      let value = strip_of " .,;:" (env.re.sub trailing_not_clause "" edited) in
      if is_blank value then none else some value

  unfoldable pub extract_edit_value : String → Option String
  extract_edit_value question = elim (env.re.search memory_edit question) [
    | none ↦ none
    | some m ↦ elim (last_named m.named) [
      | some edited ↦ trimmed_edit edited
      | none ↦ elim (last_group m.groups) [ none ↦ none | some edited ↦ trimmed_edit edited ]
    ]
  ]

  unfoldable pub classify_memory_decision : String → MemoryDecision
  classify_memory_decision question =
      let q = strip question in
      if is_blank q
      then reject
      else if occurs env memory_refuse_store q || is_some (env.re.starts bare_no q)
      then reject
      else elim (extract_edit_value q) [
        | some edited ↦ edit edited
        | none ↦
            if occurs env memory_approve q
            then approve
            else if is_small_talk env q || is_some (env.re.starts bare_affirm q)
            then reject
            else reject
      ]
