-- ===== src/ProxyTrust.antt =====
-- packages/proxy-trust: the key under which the requests of a client are counted.
pub mod Keys
pub mod Tests
use brasaland_digital.Base.{
  Bool, true, false, Option, some, none, List, [], ◌∷◌, String, is_blank, strip, contains,
  if◌then◌else◌, Result, ok, err,
}
use brasaland_digital.Base.Affixes.{split}

-- The module ipaddress, and the two settings.
pub record Env : Type 1 where
  pub Address : Type 0
  pub Network : Type 0
  -- `none` is the `ValueError`.
  pub ip_address : String → Option Address
  pub ip_network : String → Option Network
  pub is_in : Address → Network → Bool
  -- TRUSTED_PROXY_IPS and TRUSTED_PROXY_CIDRS, empty where they are not set.
  pub trusted_proxy_ips : String
  pub trusted_proxy_cidrs : String

-- What is read of a request: the host of the peer, and X-Forwarded-For.
pub record Request : Type 0 where
  pub client_host : Option String
  pub forwarded_for : Option String

-- The `ValueError` of a network that does not parse.
pub data Error : Type 0 where
  value_error : String → Error

abbrev pub peer_host : Request → String
peer_host request = elim request.client_host [ none ↦ "unknown" | some host ↦ host ]

-- The parts of a list with commas, without the blanks around them and without the empty ones.
abbrev pub stripped_parts : List String → List String
stripped_parts [] = []
stripped_parts (part ∷ rest) =
    let later = stripped_parts rest in if is_blank (strip part) then later else strip part ∷ later

module _ (env : Env) where
  unfoldable pub trusted_ips : List String
  trusted_ips = stripped_parts (split "," env.trusted_proxy_ips)

  -- The loop over the parts; the first network that does not parse raises.
  unfoldable pub parse_networks : List String → Result Error (List env.Network)
  parse_networks [] = ok []
  parse_networks (part ∷ rest) =
      let later = parse_networks rest in
      elim (env.ip_network part) [
        | none ↦ err (value_error part)
        | some network ↦ elim later [ err e ↦ err e | ok networks ↦ ok (network ∷ networks) ]
      ]

  unfoldable pub trusted_networks : Result Error (List env.Network)
  trusted_networks = parse_networks (stripped_parts (split "," env.trusted_proxy_cidrs))

  abbrev pub in_any : env.Address → List env.Network → Bool
  in_any address [] = false
  in_any address (network ∷ rest) = if env.is_in address network then true else in_any address rest

  unfoldable pub is_trusted_peer : String → Result Error Bool
  is_trusted_peer host = if contains host trusted_ips then ok true else elim (env.ip_address host) [
    | none ↦ ok false
    | some address ↦ elim trusted_networks [
      | err e ↦ err e
      | ok networks ↦ ok (in_any address networks)
    ]
  ]

  -- The first part that is not blank.
  abbrev pub first_part : List String → Option String
  first_part [] = none
  first_part (part ∷ rest) =
      let later = first_part rest in if is_blank (strip part) then later else some (strip part)

  unfoldable pub client_ip_from_forwarded : String → Option String
  client_ip_from_forwarded header = first_part (split "," header)

  -- The key of a request whose peer is trusted.
  unfoldable pub forwarded_key : Request → String
  forwarded_key request = elim request.forwarded_for [
    | none ↦ peer_host request
    | some header ↦
        if is_blank header then peer_host request else elim (client_ip_from_forwarded header) [
          | none ↦ peer_host request
          | some client_ip ↦ client_ip
        ]
  ]

  unfoldable pub rate_limit_client_key : Request → Result Error String
  rate_limit_client_key request = elim (is_trusted_peer (peer_host request)) [
    | err e ↦ err e
    | ok trusted ↦ ok (if trusted then forwarded_key request else peer_host request)
  ]
