-- ===== src/ProxyTrust/Tests.antt =====
-- The theorem on packages/proxy-trust at a concrete input.
use brasaland_digital.Base.{◌≡◌, ◌⊎◌, refl, true, some, String, ◌==◌, ok, strip, lstrip, rstrip}
use brasaland_digital.Base.Affixes.{split}
use brasaland_digital.ProxyTrust.{
  Env, Request, peer_host, is_trusted_peer, rate_limit_client_key, forwarded_key,
  client_ip_from_forwarded, trusted_ips, trusted_networks, parse_networks,
}
use brasaland_digital.ProxyTrust.Keys.{IsForwarded, key_cases}

-- Addresses and networks as texts; a network holds its own address only.
abbrev behind_proxy : Env
behind_proxy = record {
  Address = String;
  Network = String;
  ip_address = λ s. some s;
  ip_network = λ s. some s;
  is_in = λ a n. a == n;
  trusted_proxy_ips = "10.0.0.1, 10.0.0.2";
  trusted_proxy_cidrs = "";
}

abbrev through_proxy : Request
through_proxy = record { client_host = some "10.0.0.2"; forwarded_for = some " 7.7.7.7, 10.0.0.1" }

abbrev direct : Request
direct = record { client_host = some "8.8.8.8"; forwarded_for = some "7.7.7.7" }

through_proxy_key : rate_limit_client_key behind_proxy through_proxy ≡ ok "7.7.7.7"
unfolding rate_limit_client_key is_trusted_peer trusted_ips split strip lstrip rstrip forwarded_key
    client_ip_from_forwarded
through_proxy_key = refl

direct_key : rate_limit_client_key behind_proxy direct ≡ ok "8.8.8.8"
unfolding rate_limit_client_key is_trusted_peer trusted_ips trusted_networks parse_networks split
    strip lstrip rstrip
direct_key = refl

key_cases_example :
    ("7.7.7.7" ≡ peer_host through_proxy)
    ⊎ ((is_trusted_peer behind_proxy (peer_host through_proxy) ≡ ok true)
        × IsForwarded behind_proxy through_proxy "7.7.7.7")
key_cases_example = key_cases behind_proxy through_proxy "7.7.7.7" through_proxy_key
