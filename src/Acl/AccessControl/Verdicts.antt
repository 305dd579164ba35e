-- ===== src/Acl/AccessControl/Verdicts.antt =====
-- How the checks of a loaded `AccessControl` agree with one another.
use socks_hub.Prelude.{
  ℕ, ◌^◌, ◌<◌, ◌≡◌, refl, Bool, true, false, not, List, none, arith, Option-cases, inl, inr,
}
use socks_hub.Text.{Text}
use socks_hub.Io.{Result}
use socks_hub.Net.{
  IpAddr, v4, v6, SocketAddr, socket_address, domain_address, to_ipv4_mapped, to_ipv6_mapped,
}
use socks_hub.Acl.Externals.{Externals, RangeLaws}
use socks_hub.Acl.Rules
use socks_hub.Acl.Rules.{Rules, check_ip_matched, check_host_matched}
use socks_hub.Acl.Rules.Matching.{check_ip_matched-mapped}
use socks_hub.Acl.AccessControl.{AccessControl}
use socks_hub.Acl.AccessControl.Checks.{
  is_ip_empty, check_ip_in_proxy_list, is_default_in_proxy_list, check_host_in_proxy_list,
  check_target_bypassed, check_client_blocked, any_resolved, dns_resolve,
}

module _ {x : Externals} (acl : AccessControl x) where
  -- A client is blocked exactly when its address would not be proxied, in both modes.
  check_client_blocked-eq-not :
      (addr : SocketAddr) → check_client_blocked acl addr ≡ not (check_ip_in_proxy_list acl addr.ip)
  unfolding check_client_blocked check_ip_in_proxy_list
  check_client_blocked-eq-not addr = ground arith

  -- An IPv4 address and its IPv4-mapped IPv6 address have the same verdict in every mode.
  check_ip_in_proxy_list-mapped :
      (a : ℕ)
      → a < 2 ^ 32
      → check_ip_in_proxy_list acl (v6 (to_ipv6_mapped a)) ≡ check_ip_in_proxy_list acl (v4 a)
  unfolding check_ip_in_proxy_list
  check_ip_in_proxy_list-mapped a h = ground (
    arith,
    check_ip_matched-mapped acl.white_list a h,
    check_ip_matched-mapped acl.black_list a h,
  )

  -- A domain name that no host rule decides is bypassed exactly when one of its addresses is, and
  -- not at all if it does not resolve: where there are address rules.
  check_target_bypassed-resolved :
      (lookup_host : Text × ℕ → Result (List SocketAddr)) (host : Text) (port : ℕ)
      → check_host_in_proxy_list acl host ≡ none
      → is_ip_empty acl ≡ false
      → check_target_bypassed lookup_host acl (domain_address host port)
        ≡ any_resolved
            (λ addr. check_target_bypassed lookup_host acl (socket_address addr))
            (dns_resolve lookup_host host port)
  unfolding check_target_bypassed
  check_target_bypassed-resolved lookup_host host port undecided rules =
      rw (undecided, rules, check_target_bypassed) refl

  module _ {contains4 : x.Net4 → ℕ → Bool} {contains6 : x.Net6 → ℕ → Bool}
      (laws4 : RangeLaws x.range4 contains4) (laws6 : RangeLaws x.range6 contains6) where
    check_ip_matched-empty :
        (r : Rules x) (ip : IpAddr) → Rules.is_ip_empty r ≡ true → check_ip_matched r ip ≡ false
    unfolding check_ip_matched Rules.is_ip_empty
    check_ip_matched-empty r (v4 a) h = ground (
      arith,
      laws4.contains-of_is_empty r.ipv4 a,
      laws6.contains-of_is_empty r.ipv6 (to_ipv6_mapped a),
    )
    check_ip_matched-empty r (v6 a) h = elim (Option-cases (to_ipv4_mapped a)) [
      | inl other ↦
          rw (other, check_ip_matched) (ground (arith, laws6.contains-of_is_empty r.ipv6 a))
      | inr (b, mapped) ↦
          rw (mapped, check_ip_matched)
            (ground
              (arith, laws6.contains-of_is_empty r.ipv6 a, laws4.contains-of_is_empty r.ipv4 b))
    ]

    -- Where an empty address range has no address, and without address rules for its mode, an
    -- access control gives every address the default verdict: the shortcut that saves the name
    -- resolution loses nothing.
    default_of_is_ip_empty :
        (ip : IpAddr)
        → is_ip_empty acl ≡ true
        → check_ip_in_proxy_list acl ip ≡ is_default_in_proxy_list acl
    unfolding is_ip_empty check_ip_in_proxy_list is_default_in_proxy_list
    default_of_is_ip_empty ip h =
        ground (
          arith,
          check_ip_matched-empty acl.black_list ip,
          check_ip_matched-empty acl.white_list ip,
        )
