-- ===== src/Agent/Memory/Store/Screened.antt =====
-- Nothing that must not be stored gets into the memory of data/pipelines/memory_store.py.
use brasaland_digital.Base.{
  ℕ, ◌≡◌, subst, inl, inr, ◌⊎◌, true, Option, some, none, List, [], ◌∷◌, String, arith, Bool,
  Result, ◌==◌, is_blank, strip, contains, All, All-reject, Bool-cases, Option-cases, Result-cases,
  select, map, ok, err,
}
use brasaland_digital.Base.Monad.{
  Action, after_bind, answer_after_bind, lift, modify, gets, pure, ◌>>=◌, ◌>>◌,
}
use brasaland_digital.Base.Dicts.{put, pop, All-put}
use brasaland_digital.Agent.Env.{Env}
use brasaland_digital.Agent.Memory.Screen.{
  or_else, or_text, memory_categories, contains_never_store, validate_memory_payload,
}
use brasaland_digital.Agent.Memory.Store.{
  MemoryEntry, MemoryWrite, WriteResult, Error, Entries, scoped_entry_key, delete_entry,
  drop_expired, is_expired, is_asked_for, normalize_user_id, read_memory, collapse, clean_first,
  consolidate_categories, consolidate_location, stored_entry, store_entry, write_memory, Call,
  write_call, read_call, consolidate_call, after, run,
}

-- A text that passed the checks, or one in which the blanks of such a text are collapsed.
pub data IsScreened (env : Env) : String → Type 0 where
  passed : (text : String) → contains_never_store env text ≡ none → IsScreened env text
  collapsed : {text : String} → IsScreened env text → IsScreened env (collapse env text)

module _ (env : Env) where
  -- A category that is blank or one of the four, whatever its case.
  abbrev pub IsCategory : String → Type 0
  IsCategory category =
      let cat = env.lower (strip (or_text (some category) "")) in
      (is_blank cat ≡ true) ⊎ (contains cat memory_categories ≡ true)

  abbrev pub IsFit : MemoryEntry → Type 0
  IsFit entry = IsScreened env entry.summary × IsCategory entry.category

  abbrev pub IsClean : Entries → Type 0
  IsClean d = All (λ item. IsFit item.1) d

  payload_fits :
      (summary category : String)
      → validate_memory_payload env summary (some category) ≡ none
      → IsScreened env summary × IsCategory category
  unfolding validate_memory_payload
  payload_fits summary category h = elim (Option-cases (contains_never_store env summary)) [
    | inr (reason, e) ↦ absurd (ground arith)
    | inl clean ↦
        let cat = env.lower (strip (or_text (some category) "")) in
        (
          passed summary clean,
          elim (Bool-cases (is_blank cat)) [
            | inl blank ↦ inl blank
            | inr given ↦ inr (ground arith)
          ],
        )
  ]

  delete_entry-IsClean :
      (uid location category : String) (d : Entries)
      → IsClean d
      → IsClean (delete_entry env uid location category d).1
  unfolding delete_entry
  delete_entry-IsClean uid location category d h =
      after_bind IsClean (lift (scoped_entry_key env uid location category))
        (λ key. modify (pop key)) d h
        (λ key _. All-reject (λ item. IsFit item.1) (λ item. item.0 == key) d h)

  -- What `read_memory` does for a user.
  abbrev found :
      ℕ → Option String → Option String → String → Action Error Entries (List MemoryEntry)
  found now location category uid =
      gets (λ d. map (λ item. item.1) (select (is_asked_for env uid location category) d))
      >>= λ rows. drop_expired env now uid rows

  -- The rows of an answer, if there is one.
  abbrev AllFit : Result Error (List MemoryEntry) → Type 0
  AllFit (ok rows) = All IsFit rows
  AllFit (err e) = Unit

  drop_expired-IsClean :
      (now : ℕ) (uid : String) (rows : List MemoryEntry) (d : Entries)
      → IsClean d
      → IsClean (drop_expired env now uid rows d).1
  unfolding drop_expired
  drop_expired-IsClean now uid [] d h = h
  drop_expired-IsClean now uid (entry ∷ rest) d h =
      let gone : Action Error Entries (Unit {0}) =
        delete_entry env uid (or_else entry.location "unknown")
          (or_else entry.category "known_incidents") in
      let deleted : IsClean (gone d).1 =
        delete_entry-IsClean uid (or_else entry.location "unknown")
          (or_else entry.category "known_incidents") d h in
      elim (Bool-cases (is_expired env now entry)) [
        | inl old ↦ rw (old) (
            after_bind IsClean gone (λ _. drop_expired env now uid rest) d deleted
              (λ _ _. drop_expired-IsClean now uid rest (gone d).1 deleted))
        | inr alive ↦ ground (arith, drop_expired-IsClean now uid rest d h)
      ]

  drop_expired-AllFit :
      (now : ℕ) (uid : String) (rows : List MemoryEntry) (d : Entries)
      → All IsFit rows
      → AllFit (drop_expired env now uid rows d).0
  unfolding drop_expired
  drop_expired-AllFit now uid [] d h = tt
  drop_expired-AllFit now uid (entry ∷ rest) d h =
      let gone : Action Error Entries (Unit {0}) =
        delete_entry env uid (or_else entry.location "unknown")
          (or_else entry.category "known_incidents") in
      elim (Bool-cases (is_expired env now entry)) [
        | inl old ↦ rw (old) (
            answer_after_bind AllFit gone (λ _. drop_expired env now uid rest) d (λ _. tt)
              (λ _ _. drop_expired-AllFit now uid rest (gone d).1 h.1))
        | inr alive ↦ ground (arith, drop_expired-AllFit now uid rest d h.1, h.0)
      ]

  selected-AllFit :
      (p : String × MemoryEntry → Bool) (d : Entries)
      → IsClean d
      → All IsFit (map (λ item. item.1) (select p d))
  selected-AllFit p [] h = tt
  selected-AllFit p (item ∷ rest) h = ground (arith, h.0, selected-AllFit p rest h.1)

  read_memory-IsClean :
      (now : ℕ) (user_id : String) (location category : Option String) (d : Entries)
      → IsClean d
      → IsClean (read_memory env now user_id location category d).1
  unfolding read_memory
  read_memory-IsClean now user_id location category d h =
      after_bind IsClean (lift (normalize_user_id env user_id)) (found now location category) d h
        (λ uid _.
          drop_expired-IsClean now uid
            (map (λ item. item.1) (select (is_asked_for env uid location category) d)) d h)

  read_memory-AllFit :
      (now : ℕ) (user_id : String) (location category : Option String) (d : Entries)
      → IsClean d
      → AllFit (read_memory env now user_id location category d).0
  unfolding read_memory
  read_memory-AllFit now user_id location category d h =
      answer_after_bind AllFit (lift (normalize_user_id env user_id)) (found now location category)
        d (λ _. tt)
        (λ uid _.
          drop_expired-AllFit now uid
            (map (λ item. item.1) (select (is_asked_for env uid location category) d)) d
            (selected-AllFit (is_asked_for env uid location category) d h))

  clean_first-IsClean :
      (now : ℕ) (uid location cat : String) (rows : List MemoryEntry) (d : Entries)
      → All IsFit rows
      → IsClean d
      → IsClean (clean_first env now uid location cat rows d).1
  unfolding clean_first
  clean_first-IsClean now uid location cat [] d fit h = h
  clean_first-IsClean now uid location cat (row ∷ rest) d fit h =
      let cleaned : MemoryEntry = record row {
        summary = collapse env row.summary;
        updated_at = or_else row.updated_at (env.isoformat now);
      } in
      elim (Bool-cases (collapse env row.summary == row.summary)) [
        | inl same ↦ rw (same) h
        | inr differs ↦ rw (differs) (
            after_bind IsClean (lift (scoped_entry_key env uid location cat))
              (λ key. modify (put key cleaned)) d h
              (λ key _.
                All-put (λ item. IsFit item.1) key cleaned d (collapsed fit.0.0, fit.0.1) h))
      ]

  consolidate_categories-IsClean :
      (now : ℕ) (uid location : String) (cats : List String) (d : Entries)
      → IsClean d
      → IsClean (consolidate_categories env now uid location cats d).1
  unfolding consolidate_categories
  consolidate_categories-IsClean now uid location [] d h = h
  consolidate_categories-IsClean now uid location (cat ∷ rest) d h =
      let reads : Action Error Entries (List MemoryEntry) =
        read_memory env now uid (some location) (some cat) in
      let kept : IsClean (reads d).1 = read_memory-IsClean now uid (some location) (some cat) d h in
      after_bind IsClean reads
        (λ rows.
          clean_first env now uid location cat rows
          >> consolidate_categories env now uid location rest)
        d kept
        (λ rows answered.
          let fit : All IsFit rows =
            subst AllFit answered (read_memory-AllFit now uid (some location) (some cat) d h) in
          let cleaned = clean_first-IsClean now uid location cat rows (reads d).1 fit kept in
          after_bind IsClean (clean_first env now uid location cat rows)
            (λ _. consolidate_categories env now uid location rest) (reads d).1 cleaned
            (λ _ _.
              consolidate_categories-IsClean now uid location rest
                (clean_first env now uid location cat rows (reads d).1).1 cleaned))

  consolidate_location-IsClean :
      (now : ℕ) (location user_id : String) (d : Entries)
      → IsClean d
      → IsClean (consolidate_location env now location user_id d).1
  unfolding consolidate_location
  consolidate_location-IsClean now location user_id d h =
      after_bind IsClean (lift (normalize_user_id env user_id))
        (λ uid. consolidate_categories env now uid location memory_categories) d h
        (λ uid _. consolidate_categories-IsClean now uid location memory_categories d h)

  store_entry-IsClean :
      (now : ℕ) (uid : String) (stored : MemoryEntry) (d : Entries)
      → IsFit stored
      → IsClean d
      → IsClean (store_entry env now uid stored d).1
  unfolding store_entry
  store_entry-IsClean now uid stored d fit h =
      let tidies : Action Error Entries (Unit {0}) =
        consolidate_location env now stored.location uid in
      let answers : Action Error Entries WriteResult =
        pure (record { is_ok = true; reason = none; entry = some stored }) in
      after_bind IsClean (lift (scoped_entry_key env uid stored.location stored.category))
        (λ key. modify (put key stored) >> tidies >> answers) d h
        (λ key _.
          let tidied =
            consolidate_location-IsClean now stored.location uid (put key stored d)
              (All-put (λ item. IsFit item.1) key stored d fit h) in
          after_bind IsClean (modify (put key stored) >> tidies) (λ _. answers) d tidied
            (λ _ _. tidied))

  write_memory-IsClean :
      (now : ℕ) (entry : MemoryWrite) (user_id : String) (d : Entries)
      → IsClean d
      → IsClean (write_memory env now entry user_id d).1
  unfolding write_memory
  write_memory-IsClean now entry user_id d h = elim (Result-cases (normalize_user_id env user_id)) [
    | inr (e, refused) ↦ rw (refused) h
    | inl (uid, named) ↦
        let stored = stored_entry env now entry in
        elim (Option-cases (validate_memory_payload env stored.summary (some stored.category))) [
          | inr (reason, bad) ↦ rw (named, bad) h
          | inl good ↦
              rw (named, good)
                (store_entry-IsClean now uid stored d
                  (payload_fits stored.summary stored.category good) h)
        ]
  ]

  after-IsClean : (now : ℕ) (c : Call) (d : Entries) → IsClean d → IsClean (after env now c d)
  after-IsClean now (write_call entry user_id) d h = write_memory-IsClean now entry user_id d h
  after-IsClean now (read_call user_id location category) d h =
      read_memory-IsClean now user_id location category d h
  after-IsClean now (consolidate_call location user_id) d h =
      consolidate_location-IsClean now location user_id d h

  -- Whatever is written, read and consolidated, by whom and when, each entry of the memory has a
  -- category that is blank or one of the four, and a summary that passed the checks on what must never
  -- be stored, up to a collapse of its blanks after the check.
  pub run-IsClean : (calls : List (ℕ × Call)) (d : Entries) → IsClean d → IsClean (run env calls d)
  run-IsClean [] d h = h
  run-IsClean (c ∷ rest) d h = run-IsClean rest (after env c.0 c.1 d) (after-IsClean c.0 c.1 d h)
