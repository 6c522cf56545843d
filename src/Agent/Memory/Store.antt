-- ===== src/Agent/Memory/Store.antt =====
-- data/pipelines/memory_store.py: one entry per user, location and category.
pub mod Screened
use brasaland_digital.Base.{
  ℕ, ◌+◌, ◌*◌, Bool, true, false, not, ◌&&◌, ◌||◌, Option, some, none, is_some, List, [], ◌∷◌,
  String, ◌==◌, is_blank, strip, concat, ltb, select, map, if◌then◌else◌, Result, ok, err,
}
use brasaland_digital.Base.Monad.{Action, pure, lift, gets, modify, ◌>>=◌, ◌>>◌}
use brasaland_digital.Base.Dicts.{Dict, put, pop}
use brasaland_digital.Base.Regex.{plain}
use brasaland_digital.Base.Affixes.{strip_of, starts_with, replace_char}
use brasaland_digital.Agent.Env.{Env}
use brasaland_digital.Agent.Memory.Screen.{
  or_else, or_text, memory_categories, validate_memory_payload,
}

pub record MemoryEntry : Type 0 where
  pub location : String
  pub category : String
  pub summary : String
  pub updated_at : String
  pub proposal_id : Option String

pub record MemoryWrite : Type 0 where
  pub location : Option String
  pub category : Option String
  pub summary : Option String
  pub proposal_id : Option String

pub record WriteResult : Type 0 where
  pub is_ok : Bool
  pub reason : Option String
  pub entry : Option MemoryEntry

-- A `ValueError` with its message.
pub data Error : Type 0 where
  value_error : String → Error

-- `_ENTRIES`
abbrev pub Entries : Type 0
Entries = Dict MemoryEntry

abbrev pub entry_ttl_seconds : ℕ
entry_ttl_seconds = 180 * (24 * 3600)

module _ (env : Env) where
  unfoldable pub normalize_location_token : String → String
  normalize_location_token loc =
      let s = env.lower (strip loc) in
      let dashed = env.re.sub (plain "[\\s\\-]+") "_" s in
      strip_of "_" (env.re.sub (plain "_+") "_" dashed)

  unfoldable pub locations_match : String → Option String → Bool
  unfolding normalize_location_token
  locations_match stored none = true
  locations_match stored (some query) =
      if is_blank query
      then true
      else if is_blank stored
      then false
      else let a = normalize_location_token stored in
        let b = normalize_location_token query in
        if is_blank a || is_blank b
        then false
        else if a == b
        then true
        else replace_char "_" "" a == replace_char "_" "" b

  unfoldable pub entry_key : String → String → String
  unfolding normalize_location_token
  entry_key location category =
      let loc = or_else (normalize_location_token location) "unknown" in
      let cat = env.lower (strip (or_else category "known_incidents")) in
      concat loc (concat ":" cat)

  unfoldable pub normalize_user_id : String → Result Error String
  normalize_user_id user_id =
      let uid = strip user_id in
      if is_blank uid then err (value_error "user_id is required for memory scope") else ok uid

  unfoldable pub scoped_entry_key : String → String → String → Result Error String
  unfolding normalize_user_id entry_key
  scoped_entry_key user_id location category = elim (normalize_user_id user_id) [
    | err e ↦ err e
    | ok uid ↦ ok (concat uid (concat ":" (entry_key location category)))
  ]

  -- `_parse_updated_at`: a text that is no time is read as 0.
  unfoldable pub parse_updated_at : String → ℕ
  parse_updated_at iso = elim (env.timestamp_of (replace_char "Z" "+00:00" iso)) [
    | none ↦ 0
    | some t ↦ t
  ]

  unfoldable pub is_expired : ℕ → MemoryEntry → Bool
  is_expired now entry = ltb (parse_updated_at entry.updated_at + entry_ttl_seconds) now

  -- The tests of the loop over the items.
  unfoldable pub is_asked_for : String → Option String → Option String → String × MemoryEntry → Bool
  is_asked_for uid location category item =
      starts_with item.0 (concat uid ":")
      && locations_match item.1.location location
      && (is_blank (or_text category "") || item.1.category == or_text category "")

  unfoldable pub delete_entry : String → String → String → Action Error Entries (Unit {0})
  delete_entry user_id location category =
      lift (scoped_entry_key user_id location category) >>= λ key. modify (pop key)

  -- The loop that drops and deletes the expired entries.
  unfoldable pub drop_expired :
      ℕ → String → List MemoryEntry → Action Error Entries (List MemoryEntry)
  drop_expired now uid [] = pure []
  drop_expired now uid (entry ∷ rest) =
      let later = drop_expired now uid rest in
      if is_expired now entry
      then delete_entry uid (or_else entry.location "unknown")
          (or_else entry.category "known_incidents")
        >> later
      else later >>= λ alive. pure (entry ∷ alive)

  unfoldable pub read_memory :
      ℕ → String → Option String → Option String → Action Error Entries (List MemoryEntry)
  read_memory now user_id location category = lift (normalize_user_id user_id) >>= λ uid.
      gets (λ d. map (λ item. item.1) (select (is_asked_for uid location category) d))
      >>= λ entries. drop_expired now uid entries

  -- `re.sub(r"\s+", " ", summary.strip())`
  unfoldable pub collapse : String → String
  collapse summary = env.re.sub (plain "\\s+") " " (strip summary)

  -- What the loop does with the rows of one category.
  unfoldable pub clean_first :
      ℕ → String → String → String → List MemoryEntry → Action Error Entries (Unit {0})
  clean_first now uid location cat [] = pure tt
  clean_first now uid location cat (row ∷ rest) =
      if collapse row.summary == row.summary
      then pure tt
      else lift (scoped_entry_key uid location cat) >>= λ key. modify (
          put key (record row {
            summary = collapse row.summary;
            updated_at = or_else row.updated_at (env.isoformat now);
          }))

  unfoldable pub consolidate_categories :
      ℕ → String → String → List String → Action Error Entries (Unit {0})
  consolidate_categories now uid location [] = pure tt
  consolidate_categories now uid location (cat ∷ rest) =
      read_memory now uid (some location) (some cat) >>= λ rows.
      clean_first now uid location cat rows >> consolidate_categories now uid location rest

  unfoldable pub consolidate_location : ℕ → String → String → Action Error Entries (Unit {0})
  consolidate_location now location user_id = lift (normalize_user_id user_id) >>= λ uid.
      consolidate_categories now uid location memory_categories

  -- The row that `write_memory` stores.
  unfoldable pub stored_entry : ℕ → MemoryWrite → MemoryEntry
  stored_entry now entry = record {
    location = or_else (strip (or_text entry.location "unknown")) "unknown";
    category = strip (or_text entry.category "known_incidents");
    summary = strip (or_text entry.summary "");
    updated_at = env.isoformat now;
    proposal_id = entry.proposal_id;
  }

  -- The part of `write_memory` after the checks.
  unfoldable pub store_entry : ℕ → String → MemoryEntry → Action Error Entries WriteResult
  store_entry now uid stored =
      lift (scoped_entry_key uid stored.location stored.category) >>= λ key.
      modify (put key stored)
      >> consolidate_location now stored.location uid
      >> pure (record { is_ok = true; reason = none; entry = some stored })

  unfoldable pub write_memory : ℕ → MemoryWrite → String → Action Error Entries WriteResult
  write_memory now entry user_id = lift (normalize_user_id user_id) >>= λ uid.
      let stored = stored_entry now entry in
      elim (validate_memory_payload env stored.summary (some stored.category)) [
        | some reason ↦ pure (record { is_ok = false; reason = some reason; entry = none })
        | none ↦ store_entry now uid stored
      ]

-- A call of the module, by anyone and at any time.
pub data Call : Type 0 where
  write_call : MemoryWrite → String → Call
  read_call : String → Option String → Option String → Call
  consolidate_call : String → String → Call

module _ (env : Env) where
  abbrev pub after : ℕ → Call → Entries → Entries
  after now (write_call entry user_id) d = (write_memory env now entry user_id d).1
  after now (read_call user_id location category) d =
      (read_memory env now user_id location category d).1
  after now (consolidate_call location user_id) d =
      (consolidate_location env now location user_id d).1

  abbrev pub run : List (ℕ × Call) → Entries → Entries
  run [] d = d
  run (c ∷ rest) d = run rest (after c.0 c.1 d)
