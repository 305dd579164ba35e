-- ===== src/Acl/Reading/Verdicts.antt =====
-- The checks of `AccessControl` against what its file says.
use socks_hub.Prelude.{◌≡◌, ℕ, Bool, not, ◌||◌, List, map, any, arith}
use socks_hub.Text.{Text}
use socks_hub.Io.{Result, ok}
use socks_hub.Net.{IpAddr, SocketAddr, Address, socket_address, domain_address}
use socks_hub.Acl.Externals.{Externals, RangeLaws}
use socks_hub.Acl.Rules.{check_ip_matched}
use socks_hub.Acl.AccessControl.{
  AccessControl, black_list, white_list, Section, outbound_block, bypass, proxy, load_from_file,
}
use socks_hub.Acl.AccessControl.Checks.{
  check_ip_in_proxy_list, check_client_blocked, check_outbound_blocked, convert_to_ascii,
  any_resolved, dns_resolve,
}
use socks_hub.Acl.AccessControl.Lines.{rules_of}
use socks_hub.Acl.Reading.Sections.{encloses}
use socks_hub.Acl.Reading.Files.{
  file_rules, file_mode, file_names, load_from_file_hosts, load_from_file_addresses,
}

module _ (x : Externals) (contains4 : x.Net4 → ℕ → Bool) (contains6 : x.Net6 → ℕ → Bool)
    (lines : List Text) where
  -- Whether the section `d` of the file has a network with the address.
  abbrev pub file_encloses : Section → IpAddr → Bool
  file_encloses d ip = any (λ r. encloses x contains4 contains6 r ip) (file_rules x d lines)

  -- Whether an address is to be proxied: in the mode of the black list, if the black list does not
  -- have it, and in that of the white list, if the white list has it.
  abbrev pub file_proxies : IpAddr → Bool
  file_proxies ip = elim (file_mode x lines) [
    | black_list ↦ not (file_encloses bypass ip)
    | white_list ↦ file_encloses proxy ip
  ]

  -- Whether a target is blocked: by its address, or by its name or an address that this has.
  abbrev pub file_blocks : (Text × ℕ → Result (List SocketAddr)) → Address → Bool
  file_blocks lookup_host (socket_address addr) = file_encloses outbound_block addr.ip
  file_blocks lookup_host (domain_address host port) =
      file_names x outbound_block lines (convert_to_ascii x host)
      || any_resolved (λ addr. file_encloses outbound_block addr.ip)
          (dns_resolve lookup_host host port)

module _ {x : Externals} {contains4 : x.Net4 → ℕ → Bool} {contains6 : x.Net6 → ℕ → Bool}
    (laws4 : RangeLaws x.range4 contains4) (laws6 : RangeLaws x.range6 contains6) where
  -- With a file whose lines can be read and that loads, where the address ranges keep the laws of
  -- iprange: an address is proxied, a client blocked, and a target blocked exactly when the lines
  -- say so, as the code has it, which is not as its comments say. In the mode `BlackList` an
  -- address is proxied unless the bypass section has it, and in `WhiteList` only if the proxy
  -- section has it; a client is blocked exactly when its address is not proxied; a target that is
  -- an address is blocked exactly if the outbound section has it, and one that is a name exactly if
  -- a rule of that section, of whatever kind, matches the name's ASCII form, or the section has one
  -- of the addresses that the name resolves to.
  pub load_from_file_verdicts :
      (open_file : Text → Result (List (Result Text))) (path : Text) (lines : List Text)
      (acl : AccessControl x) (lookup_host : Text × ℕ → Result (List SocketAddr)) (ip : IpAddr)
      (client : SocketAddr) (target : Address)
      → open_file path ≡ ok (map ok lines)
      → load_from_file x open_file path ≡ ok acl
      → (check_ip_in_proxy_list acl ip ≡ file_proxies x contains4 contains6 lines ip)
        × (check_client_blocked acl client
            ≡ not (file_proxies x contains4 contains6 lines client.ip))
        × (check_outbound_blocked lookup_host acl target
            ≡ file_blocks x contains4 contains6 lines lookup_host target)
  unfolding check_ip_in_proxy_list check_client_blocked check_outbound_blocked
  load_from_file_verdicts open_file path lines acl lookup_host ip client target opened loaded =
      (proxied ip, blocked, outbound target)
    where
      address :
          (d : Section) (a : IpAddr)
          → check_ip_matched (rules_of d acl) a ≡ file_encloses x contains4 contains6 lines d a
      address d a = load_from_file_addresses laws4 laws6 open_file path lines acl d a opened loaded

      mode : acl.mode ≡ file_mode x lines
      mode = (load_from_file_hosts open_file path lines acl proxy path opened loaded).1

      proxied :
          (a : IpAddr) → check_ip_in_proxy_list acl a ≡ file_proxies x contains4 contains6 lines a
      proxied a = ground (arith, mode, address bypass a, address proxy a)

      blocked :
          check_client_blocked acl client ≡ not (file_proxies x contains4 contains6 lines client.ip)
      blocked = ground (arith, mode, address bypass client.ip, address proxy client.ip)

      outbound :
          (t : Address)
          → check_outbound_blocked lookup_host acl t
            ≡ file_blocks x contains4 contains6 lines lookup_host t
      outbound (socket_address addr) = address outbound_block addr.ip
      outbound (domain_address host port) =
          let named =
            (load_from_file_hosts open_file path lines acl outbound_block (convert_to_ascii x host)
              opened loaded).0 in
          let resolved : any_resolved (λ addr. check_ip_matched acl.outbound_block addr.ip)
                (dns_resolve lookup_host host port)
              ≡ any_resolved
                  (λ addr. file_encloses x contains4 contains6 lines outbound_block addr.ip)
                  (dns_resolve lookup_host host port) =
            λ i.
              any_resolved (λ addr. address outbound_block addr.ip i)
                (dns_resolve lookup_host host port) in
          ground arith
