-- ===== src/Agent/Guard/Turns/Escalation.antt =====
-- A session that asked for a secret cannot go on asking for it piece by piece.
use brasaland_digital.Base.{
  ℕ, ◌+◌, ◌≤◌, ◌≡◌, ap, sym, subst, inl, inr, Bool, true, false, ◌&&◌, Option, some, none, is_some,
  List, [], ◌∷◌, String, ◌==◌, arith, eq_iff, is_blank, All, Bool-cases, Option-cases,
}
use brasaland_digital.Base.Dicts.{lookup, put, lookup-put, lookup-put_other, lookup-reject}
use brasaland_digital.Agent.Env.{Env}
use brasaland_digital.Agent.Memory.Screen.{or_text}
use brasaland_digital.Agent.Guard.Input.{
  FailureType, security, block, GuardDecision, refusal, sensitive_data_refusal, classify_input,
  is_injection_attempt, is_sensitive_extraction, is_extraction_continuation,
}
use brasaland_digital.Agent.Guard.Ledger.{
  World, Entry, Pending, new_entry, is_expired, purge_expired, ensure_session, get_session_entry,
  get_pending_memory, set_pending_memory, clear_pending_memory, recorded, record_guardrail,
  get_guardrail_summary, given, count_up,
}
use brasaland_digital.Agent.Guard.Turns.{
  apply_input_guard, decide_turn, is_extraction_reason, escalate, continue_session, has_extraction,
  Call, ask, records, propose, forgets, recall, looks_up, summarise, clears, is_clear, after, run,
}

module _ (env : Env) (s : String) (since : ℕ) where
  -- The session has an extraction, and was last written no earlier than `since`.
  abbrev pub IsWatched : World → Type 0
  IsWatched w =
      (e : Entry) × (lookup s w.session_guard ≡ some e)
      × (1 ≤ e.extraction_turns)
      × (since ≤ e.updated_at)

  purge_expired-IsWatched :
      (now : ℕ) (w : World) → now ≤ since + 3600 → IsWatched w → IsWatched (purge_expired env now w)
  unfolding purge_expired
  purge_expired-IsWatched now w early (e, found, turns, later) =
      (e, lookup-reject (is_expired now) s e w.session_guard found (ground arith), turns, later)

  put-IsWatched :
      (name : String) (e : Entry) (w : World)
      → ((name == s) ≡ true → (1 ≤ e.extraction_turns) × (since ≤ e.updated_at))
      → IsWatched w
      → IsWatched (record w { session_guard = put name e w.session_guard })
  put-IsWatched name e w own (old, found, turns, later) = elim (Bool-cases (name == s)) [
    | inl same ↦ (
      e,
      ground (arith, eq_iff name s, lookup-put name e w.session_guard),
      (own same).0,
      (own same).1,
    )
    | inr differs ↦
        (old, ground (arith, lookup-put_other name s e w.session_guard differs), turns, later)
  ]

  ensure_session-IsWatched :
      (now : ℕ) (name : String) (w : World)
      → now ≤ since + 3600
      → IsWatched w
      → IsWatched (ensure_session env now name w).1
        × ((name == s) ≡ true → 1 ≤ (ensure_session env now name w).0.extraction_turns)
  unfolding ensure_session
  ensure_session-IsWatched now name w early h =
      let kept = purge_expired env now w in
      let watched : IsWatched kept = purge_expired-IsWatched now w early h in
      elim (Option-cases (lookup name kept.session_guard)) [
        | inl fresh ↦
            let differs : (name == s) ≡ true → ⊥ =
              λ same. absurd (ground (arith, eq_iff name s, watched.1)) in
            rw (ensure_session, fresh)
              (
                put-IsWatched name (new_entry now) kept (λ same. absurd (differs same)) watched,
                λ same. absurd (differs same),
              )
        | inr (e, known) ↦
            rw (ensure_session, known)
              (watched, λ same. ground (arith, eq_iff name s, watched.1, watched.2))
      ]

  recorded_turns :
      (now : ℕ) (kind : FailureType) (reason : Option String) (extraction : Bool) (e : Entry)
      → 1 ≤ e.extraction_turns
      → since ≤ now
      → (1 ≤ (recorded env now kind reason extraction e).extraction_turns)
        × (since ≤ (recorded env now kind reason extraction e).updated_at)
  unfolding recorded
  recorded_turns now kind reason extraction e turns from = ground (arith, turns, from)

  record_guardrail-IsWatched :
      (now : ℕ) (session_id : Option String) (kind : FailureType) (reason : Option String)
      (extraction : Bool) (w : World)
      → since ≤ now
      → now ≤ since + 3600
      → IsWatched w
      → IsWatched (record_guardrail env now session_id kind reason extraction w)
  unfolding record_guardrail
  record_guardrail-IsWatched now session_id kind reason extraction w from early h =
      let counted : World = record w { process_counts = count_up kind w.process_counts } in
      let watched : IsWatched counted = h in
      elim (Option-cases (given session_id)) [
        | inl nobody ↦ rw (record_guardrail, nobody) watched
        | inr (name, named) ↦
            let ensured = ensure_session-IsWatched now name counted early watched in
            let (e, kept) = ensure_session env now name counted in
            rw (record_guardrail, named)
              (put-IsWatched name (recorded env now kind reason extraction e) kept
                (λ same. recorded_turns now kind reason extraction e (ensured.1 same) from)
                ensured.0)
      ]

  set_pending_memory-IsWatched :
      (now : ℕ) (session_id : Option String) (pending : Option Pending) (w : World)
      → since ≤ now
      → now ≤ since + 3600
      → IsWatched w
      → IsWatched (set_pending_memory env now session_id pending w)
  unfolding set_pending_memory
  set_pending_memory-IsWatched now session_id pending w from early h =
      elim (Option-cases (given session_id)) [
        | inl nobody ↦ rw (set_pending_memory, nobody) h
        | inr (name, named) ↦
            let ensured = ensure_session-IsWatched now name w early h in
            let (e, kept) = ensure_session env now name w in
            rw (set_pending_memory, named)
              (put-IsWatched name (record e { pending_memory = pending; updated_at = now }) kept
                (λ same. (ensured.1 same, from)) ensured.0)
      ]

  get_pending_memory-IsWatched :
      (now : ℕ) (session_id : Option String) (w : World)
      → now ≤ since + 3600
      → IsWatched w
      → IsWatched (get_pending_memory env now session_id w).1
  unfolding get_pending_memory get_session_entry
  get_pending_memory-IsWatched now session_id w early h = elim (Option-cases (given session_id)) [
    | inl nobody ↦ rw (get_pending_memory, nobody) h
    | inr (name, named) ↦
        rw (get_pending_memory, named, get_session_entry) (purge_expired-IsWatched now w early h)
  ]

  get_guardrail_summary-IsWatched :
      (now : ℕ) (session_id : Option String) (w : World)
      → now ≤ since + 3600
      → IsWatched w
      → IsWatched (get_guardrail_summary env now session_id w).1
  unfolding get_guardrail_summary
  get_guardrail_summary-IsWatched now session_id w early h =
      let watched = purge_expired-IsWatched now w early h in
      elim (Option-cases (given session_id)) [
        | inl nobody ↦ rw (get_guardrail_summary, nobody) watched
        | inr (name, named) ↦
            elim (Option-cases (lookup name (purge_expired env now w).session_guard)) [
              | inl fresh ↦ rw (get_guardrail_summary, named, fresh) watched
              | inr (e, known) ↦ rw (get_guardrail_summary, named, known) watched
            ]
      ]

  continue_session-IsWatched :
      (now : ℕ) (session_id : Option String) (decision : GuardDecision) (entry : Option Entry)
      (w : World)
      → since ≤ now
      → now ≤ since + 3600
      → IsWatched w
      → IsWatched (continue_session env now session_id decision entry w).1
  unfolding continue_session
  continue_session-IsWatched now session_id decision entry w from early h =
      elim (Bool-cases (has_extraction entry)) [
        | inl before ↦
            rw (continue_session, before)
              (record_guardrail-IsWatched now session_id security
                (some "session_extraction_continuation") true w from early h)
        | inr first ↦ rw (continue_session, first) h
      ]

  escalate-IsWatched :
      (now : ℕ) (question : String) (session_id : Option String) (decision : GuardDecision)
      (w : World)
      → since ≤ now
      → now ≤ since + 3600
      → IsWatched w
      → IsWatched (escalate env now question session_id decision w).1
  unfolding escalate get_session_entry
  escalate-IsWatched now question session_id decision w from early h =
      let kept = purge_expired env now w in
      let watched = purge_expired-IsWatched now w early h in
      elim (Bool-cases (is_some (given session_id) && is_extraction_continuation env question)) [
        | inl goes_on ↦ rw (goes_on) (
            continue_session-IsWatched now session_id decision
              (lookup (or_text session_id "") kept.session_guard) kept from early watched)
        | inr stops ↦ rw (stops) h
      ]

  apply_input_guard-IsWatched :
      (now : ℕ) (question : String) (session_id : Option String) (w : World)
      → since ≤ now
      → now ≤ since + 3600
      → IsWatched w
      → IsWatched (apply_input_guard env now question session_id w).1
  unfolding apply_input_guard decide_turn classify_input
  apply_input_guard-IsWatched now question session_id w from early h =
      let decision = classify_input env question in
      let passed = escalate-IsWatched now question session_id decision w from early h in
      elim (Bool-cases decision.is_blocked) [
        | inr passes ↦ rw (passes) passed
        | inl blocked ↦ elim (Option-cases decision.failure_type) [
          | inl none_named ↦ rw (blocked, none_named) passed
          | inr (kind, named) ↦
              rw (blocked, named)
                (record_guardrail-IsWatched now session_id kind decision.reason
                  (is_extraction_reason decision.reason) w from early h)
        ]
      ]

  after-IsWatched :
      (now : ℕ) (c : Call) (w : World)
      → is_clear c ≡ false
      → since ≤ now
      → now ≤ since + 3600
      → IsWatched w
      → IsWatched (after env now c w)
  unfolding clear_pending_memory get_session_entry
  after-IsWatched now (ask question session_id) w kept from early h =
      apply_input_guard-IsWatched now question session_id w from early h
  after-IsWatched now (records session_id kind reason extraction) w kept from early h =
      record_guardrail-IsWatched now session_id kind reason extraction w from early h
  after-IsWatched now (propose session_id pending) w kept from early h =
      set_pending_memory-IsWatched now session_id pending w from early h
  after-IsWatched now (forgets session_id) w kept from early h =
      set_pending_memory-IsWatched now session_id none w from early h
  after-IsWatched now (recall session_id) w kept from early h =
      get_pending_memory-IsWatched now session_id w early h
  after-IsWatched now (looks_up session_id) w kept from early h =
      purge_expired-IsWatched now w early h
  after-IsWatched now (summarise session_id) w kept from early h =
      get_guardrail_summary-IsWatched now session_id w early h
  after-IsWatched now clears w kept from early h = cc

  -- The time of a call is no earlier than `since`, and within the life of a session after it.
  abbrev pub InTime : ℕ → Type 0
  InTime now = (since ≤ now) × (now ≤ since + 3600)

  -- A call in time that does not clear the ledger.
  abbrev pub InSession : ℕ × Call → Type 0
  InSession c = InTime c.0 × (is_clear c.1 ≡ false)

  run-IsWatched :
      (calls : List (ℕ × Call)) (w : World)
      → All InSession calls
      → IsWatched w
      → IsWatched (run env calls w)
  run-IsWatched [] w timely h = h
  run-IsWatched (c ∷ rest) w timely h =
      let ((from, early), kept) = timely.0 in
      run-IsWatched rest (after env c.0 c.1 w) timely.1
        (after-IsWatched c.0 c.1 w kept from early h)

  -- The watch begins with an extraction.
  extraction-IsWatched :
      (session_id : Option String) (kind : FailureType) (reason : Option String) (w : World)
      → given session_id ≡ some s
      → IsWatched (record_guardrail env since session_id kind reason true w)
  unfolding record_guardrail recorded
  extraction-IsWatched session_id kind reason w named =
      let counted : World = record w { process_counts = count_up kind w.process_counts } in
      let (e, kept) = ensure_session env since s counted in
      let noted : Entry = recorded env since kind reason true e in
      rw (record_guardrail, named)
        (noted, lookup-put s noted kept.session_guard, omega arith, omega arith)

  classified :
      (question : String)
      → is_injection_attempt env question ≡ false
      → is_sensitive_extraction env question ≡ true
      → classify_input env question
        ≡ refusal security block sensitive_data_refusal "sensitive_extraction"
  unfolding classify_input
  classified question plain secret = ground arith

  first_recorded :
      (question : String) (w : World)
      → is_injection_attempt env question ≡ false
      → is_sensitive_extraction env question ≡ true
      → (apply_input_guard env since question (some s) w).1
        ≡ record_guardrail env since (some s) security (some "sensitive_extraction") true w
  unfolding apply_input_guard decide_turn
  first_recorded question w plain secret =
      ap (λ d. (decide_turn env since question (some s) d w).1) (classified question plain secret)

  first-IsWatched :
      (question : String) (w : World)
      → is_blank s ≡ false
      → is_injection_attempt env question ≡ false
      → is_sensitive_extraction env question ≡ true
      → IsWatched (apply_input_guard env since question (some s) w).1
  first-IsWatched question w named plain secret =
      subst IsWatched (sym (first_recorded question w plain secret))
        (extraction-IsWatched (some s) security (some "sensitive_extraction") w (ground arith))

  next_refused :
      (now : ℕ) (question : String) (w : World)
      → is_blank s ≡ false
      → is_extraction_continuation env question ≡ true
      → now ≤ since + 3600
      → IsWatched w
      → (apply_input_guard env now question (some s) w).0.is_blocked ≡ true
  unfolding apply_input_guard decide_turn classify_input escalate continue_session get_session_entry
  next_refused now question w named goes_on early h =
      let (e, found, turns, later) = purge_expired-IsWatched now w early h in
      ground (arith, found, turns)

-- Once a question for a secret that is no injection was refused in a session, a question that goes on
-- asking is blocked in that session, after whatever other calls of the ledger but its reset, given
-- that these calls and the question come no earlier than the refusal and within the hour after it.
pub extraction_stays_refused :
    (env : Env) (s : String) (since : ℕ) (first : String) (w : World) (calls : List (ℕ × Call))
    (now : ℕ) (question : String)
    → is_blank s ≡ false
    → is_injection_attempt env first ≡ false
    → is_sensitive_extraction env first ≡ true
    → All (InSession env s since) calls
    → is_extraction_continuation env question ≡ true
    → InTime env s since now
    → (apply_input_guard env now question
        (some s)
        (run env calls (apply_input_guard env since first (some s) w).1)).0.is_blocked
      ≡ true
extraction_stays_refused env s since first w calls now question named plain secret timely goes_on
      (from, early) =
    let refused = (apply_input_guard env since first (some s) w).1 in
    next_refused env s since now question (run env calls refused) named goes_on early (
      run-IsWatched env s since calls refused timely
        (first-IsWatched env s since first w named plain secret))
