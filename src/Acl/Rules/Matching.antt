-- ===== src/Acl/Rules/Matching.antt =====
-- The checks of compiled rules do not depend on how an address or a name is written.
use socks_hub.Prelude.{ℕ, ◌^◌, ◌<◌, ◌≡◌, true, ◌++◌, arith, all}
use socks_hub.Text.{Text, is_dot}
use socks_hub.Text.Ascii.{trim_end_matches-append}
use socks_hub.Net.{v4, v6, to_ipv6_mapped, to_ipv4_mapped-to_ipv6_mapped}
use socks_hub.Acl.Externals.{Externals}
use socks_hub.Acl.Rules.{Rules, check_ip_matched, check_host_matched}

module _ {x : Externals} (r : Rules x) where
  -- An IPv4 address and its IPv4-mapped IPv6 address match the same rules, whichever family the
  -- rules are written in.
  pub check_ip_matched-mapped :
      (a : ℕ) → a < 2 ^ 32 → check_ip_matched r (v6 (to_ipv6_mapped a)) ≡ check_ip_matched r (v4 a)
  unfolding check_ip_matched
  check_ip_matched-mapped a h = rw (to_ipv4_mapped-to_ipv6_mapped a h) (ground arith)

  -- A fully qualified name, with its dots at the end, matches the same rules as without them.
  pub check_host_matched-dots :
      (host dots : Text)
      → all is_dot dots ≡ true
      → check_host_matched r (host ++ dots) ≡ check_host_matched r host
  unfolding check_host_matched
  check_host_matched-dots host dots h = rw (trim_end_matches-append is_dot host dots h)
