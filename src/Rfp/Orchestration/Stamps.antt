-- ===== src/Rfp/Orchestration/Stamps.antt =====
-- The arbitration and its stamps together.
use brasaland_digital.Base.{
  ◌≡◌, refl, ◌∙◌, ap, inl, inr, Bool, true, false, ◌&&◌, ◌||◌, Option, some, none, is_some, List,
  [], ◌∷◌, String, ◌==◌, arith, eq_iff, contains, exists, map, Bool-cases,
}
use brasaland_digital.Base.Dicts.{put, lookup-put, lookup-put_other}
use brasaland_digital.Rfp.Evaluators.{Metrics}
use brasaland_digital.Rfp.Arbitration.{
  Payload, as_number, Sections, breach, conflict, payload_of, stamp, run_arbitration,
}
use brasaland_digital.Rfp.Arbitration.Forced.{forced_departments_iff}
use brasaland_digital.Rfp.Orchestration.{put_stamps, apply_arbitration_stamps}

module _ (metrics : Metrics) where
  -- Whether a section is to be changed.
  abbrev pub is_marked : String → Sections metrics → Bool
  is_marked name sections = (payload_of metrics name sections).forced_request_changes

  -- A section that promises a setup in a number of days below ten.
  abbrev pub is_short : Payload metrics.Number → Bool
  is_short payload = elim (as_number metrics payload.setup_days) [
    | none ↦ false
    | some days ↦ metrics.less days (metrics.whole 10)
  ]

  -- The price of operaciones and the cost of procurement are numbers, and the price is the lower one.
  abbrev pub is_costly : Sections metrics → Bool
  is_costly sections =
      elim (as_number metrics (payload_of metrics "operaciones" sections).price_per_cover) [
        | none ↦ false
        | some price ↦ elim (as_number metrics (payload_of metrics "procurement" sections).cost) [
          | none ↦ false
          | some cost ↦ metrics.less price cost
        ]
      ]

  breach_short :
      (payload : Payload metrics.Number) → is_some (breach metrics payload) ≡ is_short payload
  unfolding breach
  breach_short payload = ground arith

  conflict_costly :
      (sections : Sections metrics) → is_some (conflict metrics sections) ≡ is_costly sections
  unfolding conflict
  conflict_costly sections = ground arith

  -- Before the arbitration a section of the name promises too short a setup, or it is one of the two
  -- whose numbers do not fit.
  abbrev is_sent_back : (Payload metrics.Number → Bool) → Bool → Sections metrics → String → Bool
  is_sent_back short costly sections name =
      exists (λ item. item.0 == name && short item.1) sections
      || (costly && (name == "operaciones" || name == "procurement"))

  marked_put :
      (name d : String) (payload : Payload metrics.Number) (merged : Sections metrics)
      → payload.forced_request_changes ≡ true
      → is_marked name (put d payload merged) ≡ (d == name || is_marked name merged)
  marked_put name d payload merged marks = elim (Bool-cases (d == name)) [
    | inl same ↦ ground (arith, marks, eq_iff d name, lookup-put d payload merged)
    | inr differs ↦ ground (arith, lookup-put_other d name payload merged differs)
  ]

  marked_stamps :
      (name : String) (sections : Sections metrics) (resolutions forced : List String)
      (merged : Sections metrics)
      → is_marked name (put_stamps metrics (map (stamp metrics sections resolutions) forced) merged)
        ≡ (contains name forced || is_marked name merged)
  unfolding put_stamps stamp
  marked_stamps name sections resolutions [] merged = refl
  marked_stamps name sections resolutions (d ∷ rest) merged =
      let payload = (stamp metrics sections resolutions d).1 in
      ground (
        arith,
        eq_iff d name,
        eq_iff name d,
        marked_stamps name sections resolutions rest (put d payload merged),
        marked_put name d payload merged refl,
      )

  -- After the arbitration and its stamps a section is to be changed exactly when it was before, it
  -- promises a setup in fewer than ten days, or it is that of operaciones or procurement and the cost
  -- of procurement exceeds the price of operaciones.
  pub stamped_iff :
      (sections : Sections metrics) (budget_range : Option String) (name : String)
      → is_marked name (
          apply_arbitration_stamps metrics sections (run_arbitration metrics sections budget_range))
        ≡ ((exists (λ item. item.0 == name && is_short item.1) sections
              || (is_costly sections && (name == "operaciones" || name == "procurement")))
            || is_marked name sections)
  unfolding apply_arbitration_stamps run_arbitration
  stamped_iff sections budget_range name =
      let resolutions = (run_arbitration metrics sections budget_range).resolutions in
      marked_stamps name sections resolutions
        (run_arbitration metrics sections budget_range).forced_departments sections
      ∙ ap (λ b. b || is_marked name sections)
          (forced_departments_iff metrics sections budget_range name
            ∙ ap
                (λ (costly : Bool).
                  is_sent_back (λ p. is_some (breach metrics p)) costly sections name)
                (conflict_costly sections)
            ∙ (λ i. is_sent_back (λ p. breach_short p i) (is_costly sections) sections name))
