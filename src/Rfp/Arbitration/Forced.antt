-- ===== src/Rfp/Arbitration/Forced.antt =====
-- Which departments the arbitration of data/pipelines/rfp_intake sends back.
use brasaland_digital.Base.{
  ◌≡◌, refl, ap, ◌∙◌, inl, inr, Bool, true, false, ◌&&◌, ◌||◌, Option, is_some, List, [], ◌∷◌,
  String, ◌==◌, arith, eq_iff, contains, exists, contains-sorted, Bool-cases, Option-cases,
}
use brasaland_digital.Rfp.Evaluators.{Metrics}
use brasaland_digital.Rfp.Arbitration.{
  Sections, breach, breaches, conflict, forced_set, add_once, run_arbitration,
}

module _ (metrics : Metrics) where
  contains-add_once :
      (name x : String) (names : List String)
      → contains name (add_once metrics x names) ≡ (x == name || contains name names)
  contains-add_once name x names = elim (Bool-cases (contains x names)) [
    | inl there ↦ ground (arith, eq_iff x name, eq_iff name x)
    | inr absent ↦ ground (arith, eq_iff x name, eq_iff name x)
  ]

  -- A department of the list of short setups, or one of the two of the conflict.
  abbrev pub is_forced : String → Bool → List (String × metrics.Number) → Bool
  is_forced name costly short =
      exists (λ b. b.0 == name) short
      || (costly && (name == "operaciones" || name == "procurement"))

  forced_set_lem :
      (name : String) (costly : Bool) (short : List (String × metrics.Number))
      → contains name (forced_set metrics short costly) ≡ is_forced name costly short
  unfolding forced_set
  forced_set_lem name false [] = ground arith
  forced_set_lem name true [] = ground arith
  forced_set_lem name costly (b ∷ rest) = ground (
    arith,
    forced_set_lem name costly rest,
    contains-add_once name b.0 (forced_set metrics rest costly),
  )

  short_sections :
      (name : String) (sections : Sections metrics)
      → exists (λ b. b.0 == name) (breaches metrics sections)
        ≡ exists (λ item. item.0 == name && is_some (breach metrics item.1)) sections
  unfolding breaches
  short_sections name [] = refl
  short_sections name (item ∷ rest) = elim (Option-cases (breach metrics item.1)) [
    | inl long ↦ ground (arith, short_sections name rest)
    | inr (days, short) ↦ ground (arith, short_sections name rest)
  ]

  -- A department is sent back exactly when its section promises a setup in fewer than ten days, or it
  -- is operaciones or procurement and the cost of procurement exceeds the price of operaciones.
  pub forced_departments_iff :
      (sections : Sections metrics) (budget_range : Option String) (name : String)
      → contains name (run_arbitration metrics sections budget_range).forced_departments ≡ (
          exists (λ item. item.0 == name && is_some (breach metrics item.1)) sections
          || (is_some (conflict metrics sections)
              && (name == "operaciones" || name == "procurement")))
  unfolding run_arbitration
  forced_departments_iff sections budget_range name =
      let short = breaches metrics sections in
      let costly = is_some (conflict metrics sections) in
      contains-sorted name (forced_set metrics short costly)
      ∙ forced_set_lem name costly short
      ∙ ap (λ b. b || (costly && (name == "operaciones" || name == "procurement")))
          (short_sections name sections)
