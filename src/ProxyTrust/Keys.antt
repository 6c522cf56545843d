-- ===== src/ProxyTrust/Keys.antt =====
-- Who decides on the key of a request in packages/proxy-trust.
use brasaland_digital.Base.{
  ◌≡◌, ◌∙◌, refl, sym, subst, inl, inr, ◌⊎◌, true, false, some, List, [], ◌∷◌, String, arith,
  is_blank, strip, contains, Bool-cases, Option-cases, Result-cases, ok, eq_refl,
}
use brasaland_digital.Base.Affixes.{split}
use brasaland_digital.ProxyTrust.{
  Env, Request, peer_host, stripped_parts, is_trusted_peer, first_part, client_ip_from_forwarded,
  forwarded_key, rate_limit_client_key,
}

module _ (env : Env) where
  first_part_found :
      (parts : List String) (part : String)
      → first_part env parts ≡ some part
      → (contains part (stripped_parts parts) ≡ true) × (is_blank part ≡ false)
  first_part_found [] part h = absurd (ground arith)
  first_part_found (x ∷ rest) part h = elim (Bool-cases (is_blank (strip x))) [
    | inl blank ↦ ground (arith, blank, first_part_found rest part)
    | inr given ↦
        let same : strip x ≡ part = ground arith in
        subst (λ y. (contains y (stripped_parts (x ∷ rest)) ≡ true) × (is_blank y ≡ false)) same
          (ground (arith, given, eq_refl (strip x)), given)
  ]

  -- The key is an entry of the header.
  abbrev pub IsForwarded : Request → String → Type 0
  IsForwarded request key =
      (header : String) × (request.forwarded_for ≡ some header)
      × (contains key (stripped_parts (split "," header)) ≡ true)
      × (is_blank key ≡ false)

  forwarded :
      (request : Request)
      → (forwarded_key env request ≡ peer_host request)
        ⊎ IsForwarded request (forwarded_key env request)
  unfolding forwarded_key client_ip_from_forwarded
  forwarded request = elim (Option-cases request.forwarded_for) [
    | inl without ↦ rw (without) (inl refl)
    | inr (header, with_header) ↦ elim (Bool-cases (is_blank header)) [
      | inl empty ↦ rw (with_header, empty) (inl refl)
      | inr given ↦ elim (Option-cases (first_part env (split "," header))) [
        | inl nobody ↦ rw (with_header, given, nobody) (inl refl)
        | inr (client_ip, found) ↦
            let (listed, filled) = first_part_found (split "," header) client_ip found in
            rw (with_header, given, found) (inr (header, refl, listed, filled))
      ]
    ]
  ]

  -- The key of a request that gets one is the address of its peer; it is an entry of the header
  -- X-Forwarded-For that is not blank only where the peer is trusted.
  pub key_cases :
      (request : Request) (key : String)
      → rate_limit_client_key env request ≡ ok key
      → (key ≡ peer_host request)
        ⊎ ((is_trusted_peer env (peer_host request) ≡ ok true) × IsForwarded request key)
  unfolding rate_limit_client_key
  key_cases request key h = elim (Result-cases (is_trusted_peer env (peer_host request))) [
    | inr (e, failed) ↦ absurd (ground arith)
    | inl (false, stranger) ↦ inl (ground arith)
    | inl (true, trusted) ↦
        let same : forwarded_key env request ≡ key = ground arith in
        elim (forwarded request) [
          | inl peer ↦ inl (sym same ∙ peer)
          | inr entry ↦ inr (trusted, subst (IsForwarded request) same entry)
        ]
  ]
