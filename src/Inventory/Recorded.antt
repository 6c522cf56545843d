-- ===== src/Inventory/Recorded.antt =====
-- What services/inventory keeps of its orders.
use brasaland_digital.Base.{
  ℕ, ◌≡◌, sym, subst, ap, true, List, [], ◌∷◌, ◌++◌, String, contains, arith, All, All-map,
  All-append, find, find-append, Result, ok, Result-cases, Option-cases, Bool-cases, inl, inr, some,
}
use brasaland_digital.Base.Sql.{has_key}
use brasaland_digital.AuthVerify.{Claims}
use brasaland_digital.Inventory.Store.{
  IngredientEntry, IngredientExit, IngredientCreate, IngredientEntryCreate, IngredientExitCreate,
  Ingredient, Float, Env, World, Error, id_of, sku_of,
}
use brasaland_digital.Inventory.Orders.{
  create_product, add_entry, create_inbound_order, add_exit, entry_row, exit_row,
  create_outbound_order, valid_exit_reasons, admits_quantity, admits_cost, location_id_to_slug,
  get_ingredient_or_404, assert_authorized_location_id, Request, creates, brings_in, takes_out,
  serve, run,
}
use brasaland_digital.Inventory.Locations.{assert_authorized_location_id_iff}
use brasaland_digital.Inventory.Stock.{outbound-eq-ok, outbound_fails, inbound-cases}
use brasaland_digital.Inventory.Balance.{known_ingredient}

module _ (env : Env) where
  -- The ingredient exists, the location is in the catalogue, and the quantity is positive and finite.
  abbrev pub IsOrder : World env → ℕ → ℕ → Float → Type 0
  IsOrder w ingredient_id location_id quantity =
      ((q : Ingredient) × (find (has_key id_of sku_of ingredient_id)
            (env.ingredients.rows w.ingredients)
          ≡ some q))
      × ((slug : String) × (location_id_to_slug location_id ≡ some slug))
      × (env.floats.is_less env.floats.zero_float quantity ≡ true)
      × (env.floats.is_finite quantity ≡ true)

  abbrev pub IsEntry : World env → IngredientEntry → Type 0
  IsEntry w r = IsOrder w r.ingredient_id r.location_id r.quantity

  abbrev pub IsExit : World env → IngredientExit → Type 0
  IsExit w r =
      IsOrder w r.ingredient_id r.location_id r.quantity
      × (contains r.reason ("consumption" ∷ "waste" ∷ []) ≡ true)

  abbrev pub IsRecorded : World env → Type 0
  IsRecorded w =
      All (IsEntry w) (env.entries.rows w.entries) × All (IsExit w) (env.exits.rows w.exits)

  found_later :
      (p : Ingredient → _) (rows : List Ingredient) (new q : Ingredient)
      → find p rows ≡ some q
      → find p (rows ++ new ∷ []) ≡ some q
  found_later p rows new q h = ground (arith, find-append p rows (new ∷ []))

  product-IsRecorded :
      (payload : IngredientCreate) (w : World env)
      → IsRecorded w
      → IsRecorded (create_product env payload w).1
  unfolding create_product
  product-IsRecorded payload w c =
      elim (Bool-cases (env.ingredients.accepts payload.sku w.ingredients)) [
        | inr taken_sku ↦ rw taken_sku c
        | inl free ↦
            let row : Ingredient = record {
              id = env.ingredients.next_key w.ingredients;
              name = payload.name;
              sku = payload.sku;
              unit = payload.unit;
              category = payload.category;
              country = payload.country;
            } in
            let v : World env = record w {
              ingredients = env.ingredients.insert row w.ingredients;
            } in
            let keeps : (i l : ℕ) (q : Float) → IsOrder w i l q → IsOrder v i l q = λ i l q o. (
              (
                o.0.0,
                subst (λ rows. find (has_key id_of sku_of i) rows ≡ some o.0.0)
                    (sym (env.ingredients.rows-insert row w.ingredients))
                    (found_later (has_key id_of sku_of i) (env.ingredients.rows w.ingredients) row
                      o.0.0 o.0.1),
              ),
              o.1,
              o.2,
              o.3,
            ) in
            rw free (
              All-map (env.entries.rows w.entries)
                  (λ r o. keeps r.ingredient_id r.location_id r.quantity o) c.0,
              All-map (env.exits.rows w.exits)
                  (λ r o. (keeps r.ingredient_id r.location_id r.quantity o.0, o.1)) c.1,
            )
      ]

  add_entry-IsRecorded :
      (now : ℕ) (user : String) (payload : IngredientEntryCreate) (w : World env)
      → IsOrder w payload.ingredient_id payload.location_id payload.quantity
      → IsRecorded w
      → IsRecorded (add_entry env now user payload w).1
  unfolding add_entry
  add_entry-IsRecorded now user payload w o c = (
    subst (All (IsEntry w))
        (sym (env.entries.rows-insert (entry_row env now user payload w) w.entries))
        (All-append (IsEntry w) (env.entries.rows w.entries) (entry_row env now user payload w ∷ [])
          c.0 (o, tt)),
    c.1,
  )

  add_exit-IsRecorded :
      (now : ℕ) (user : String) (payload : IngredientExitCreate) (w : World env)
      → IsOrder w payload.ingredient_id payload.location_id payload.quantity
      → contains payload.reason valid_exit_reasons ≡ true
      → IsRecorded w
      → IsRecorded (add_exit env now user payload w).1
  unfolding add_exit
  add_exit-IsRecorded now user payload w o reason c = (
    c.0,
    subst (All (IsExit w)) (sym (env.exits.rows-insert (exit_row env now user payload w) w.exits)) (
        All-append (IsExit w) (env.exits.rows w.exits) (exit_row env now user payload w ∷ []) c.1
          ((o, reason), tt)),
  )

  in_catalogue :
      (claims : Claims) (l : ℕ)
      → assert_authorized_location_id claims l ≡ ok l
      → (slug : String) × (location_id_to_slug l ≡ some slug)
  in_catalogue claims l h =
      let (slug, known, _) = (assert_authorized_location_id_iff claims l).0 h in (slug, known)

  found :
      (i : ℕ) (w : World env) (q : Ingredient)
      → env.ingredients.get i w.ingredients ≡ some q
      → find (has_key id_of sku_of i) (env.ingredients.rows w.ingredients) ≡ some q
  found i w q h = ground (arith, env.ingredients.get-find i w.ingredients)

  known_entry :
      (now : ℕ) (user : String) (claims : Claims) (payload : IngredientEntryCreate) (w : World env)
      (r : IngredientEntry)
      → (create_inbound_order env now user claims payload w).0 ≡ ok r
      → (q : Ingredient) × (env.ingredients.get payload.ingredient_id w.ingredients ≡ some q)
  unfolding create_inbound_order get_ingredient_or_404
  known_entry now user claims payload w r h =
      elim (Option-cases (env.ingredients.get payload.ingredient_id w.ingredients)) [
        | inl unknown ↦ absurd (ground arith)
        | inr known ↦ known
      ]

  inbound-IsRecorded :
      (now : ℕ) (user : String) (claims : Claims) (payload : IngredientEntryCreate) (w : World env)
      → admits_quantity env payload.quantity ≡ true
      → IsRecorded w
      → IsRecorded (create_inbound_order env now user claims payload w).1
  unfolding admits_quantity add_entry
  inbound-IsRecorded now user claims payload w admitted c =
      let P : Result Error IngredientEntry × World env → Type 0 = λ p. IsRecorded p.1 in
      elim (inbound-cases env now user claims payload w) [
        | inr (e, step) ↦ subst P (sym step) c
        | inl (step, allowed) ↦
            let (q, known) =
              known_entry now user claims payload w (entry_row env now user payload w)
                (ap (λ (p : Result Error IngredientEntry × World env). p.0) step) in
            subst P (sym step) (
              add_entry-IsRecorded now user payload w
                (
                  (q, found payload.ingredient_id w q known),
                  in_catalogue claims payload.location_id allowed,
                  ground arith,
                  ground arith,
                )
                c)
      ]

  outbound-IsRecorded :
      (now : ℕ) (user : String) (claims : Claims) (payload : IngredientExitCreate) (w : World env)
      → admits_quantity env payload.quantity ≡ true
      → IsRecorded w
      → IsRecorded (create_outbound_order env now user claims payload w).1
  unfolding admits_quantity
  outbound-IsRecorded now user claims payload w admitted c =
      elim (Result-cases (create_outbound_order env now user claims payload w).0) [
        | inr (e, failed) ↦
            subst IsRecorded (sym (outbound_fails env now user claims payload w e failed)) c
        | inl (r, done) ↦
            let (allowed, reason, _, step) = outbound-eq-ok env now user claims payload w r done in
            let (q, known) = known_ingredient env now user claims payload w r done in
            subst (λ (p : Result Error IngredientExit × World env). IsRecorded p.1) (sym step)
              (add_exit-IsRecorded now user payload w
                (
                  (q, found payload.ingredient_id w q known),
                  in_catalogue claims payload.location_id allowed,
                  ground arith,
                  ground arith,
                )
                reason c)
      ]

  serve-IsRecorded :
      (now : ℕ) (r : Request) (w : World env) → IsRecorded w → IsRecorded (serve env now r w)
  unfolding serve
  serve-IsRecorded now (creates payload) w c = product-IsRecorded payload w c
  serve-IsRecorded now (brings_in user claims payload) w c =
      elim (Bool-cases (admits_quantity env payload.quantity)) [
        | inr invalid ↦ rw invalid c
        | inl valid ↦ elim (Bool-cases (admits_cost env payload.unit_cost)) [
          | inl priced ↦ rw (valid, priced) (inbound-IsRecorded now user claims payload w valid c)
          | inr unpriced ↦ rw (valid, unpriced) c
        ]
      ]
  serve-IsRecorded now (takes_out user claims payload) w c =
      elim (Bool-cases (admits_quantity env payload.quantity)) [
        | inl valid ↦ rw valid (outbound-IsRecorded now user claims payload w valid c)
        | inr invalid ↦ rw invalid c
      ]

  -- Every order that is stored, in or out, is of an ingredient that is in the database and a location
  -- that is in the catalogue, with a positive and finite quantity, and is taken out for consumption or
  -- as waste: whatever requests are made, in any order and by any users, keep this so.
  pub run-IsRecorded :
      (requests : List (ℕ × Request)) (w : World env)
      → IsRecorded w
      → IsRecorded (run env requests w)
  unfolding run
  run-IsRecorded [] w c = c
  run-IsRecorded ((now, r) ∷ requests) w c =
      run-IsRecorded requests (serve env now r w) (serve-IsRecorded now r w c)
