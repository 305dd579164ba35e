-- ===== src/Acl/AccessControl/Checks.antt =====
-- The checks of `AccessControl` in src/acl/mod.rs: hosts, addresses, targets and clients.
use socks_hub.Prelude.{
  ℕ, Bool, true, false, not, ◌&&◌, List, Option, none, some, if◌then◌else◌, any,
}
use socks_hub.Text.{Text}
use socks_hub.Io.{Result, ok, err, ◌>>=◌}
use socks_hub.Net.{IpAddr, SocketAddr, Address, socket_address, domain_address}
use socks_hub.Acl.Externals.{Externals}
use socks_hub.Acl.Rules
use socks_hub.Acl.Rules.{check_ip_matched, check_host_matched}
use socks_hub.Acl.AccessControl.{AccessControl, black_list, white_list}

-- The loops over resolved addresses; an error of the resolution is no address.
abbrev pub any_resolved : (SocketAddr → Bool) → Result (List SocketAddr) → Bool
any_resolved p (ok vaddr) = any p vaddr
any_resolved p (err e) = false

-- `dns_resolve`, over tokio's `lookup_host` at the time of the call.
abbrev pub dns_resolve : (Text × ℕ → Result (List SocketAddr)) → Text → ℕ → Result (List SocketAddr)
dns_resolve lookup_host domain port = lookup_host (domain, port) >>= (λ addrs. ok addrs)

module _ {x : Externals} where
  -- `AccessControl::file_path`
  abbrev pub file_path : AccessControl x → Text
  file_path acl = acl.file_path

  unfoldable pub check_ascii_host_in_proxy_list : AccessControl x → Text → Option Bool
  check_ascii_host_in_proxy_list acl host =
      if check_host_matched acl.white_list host
      then some true
      else if check_host_matched acl.black_list host
      then some false
      else none

  -- `is_ip_empty` reads the list of the mode alone.
  unfoldable pub is_ip_empty : AccessControl x → Bool
  is_ip_empty acl = elim acl.mode [
    | black_list ↦ Rules.is_ip_empty acl.black_list
    | white_list ↦ Rules.is_ip_empty acl.white_list
  ]

  unfoldable pub is_host_empty : AccessControl x → Bool
  is_host_empty acl = Rules.is_host_empty acl.black_list && Rules.is_host_empty acl.white_list

  unfoldable pub check_ip_in_proxy_list : AccessControl x → IpAddr → Bool
  check_ip_in_proxy_list acl ip = elim acl.mode [
    | black_list ↦ not (check_ip_matched acl.black_list ip)
    | white_list ↦ check_ip_matched acl.white_list ip
  ]

  unfoldable pub is_default_in_proxy_list : AccessControl x → Bool
  is_default_in_proxy_list acl = elim acl.mode [ black_list ↦ true | white_list ↦ false ]

module _ (x : Externals) where
  unfoldable pub convert_to_ascii : Text → Text
  convert_to_ascii host = elim (x.domain_to_ascii host) [ some h ↦ h | none ↦ host ]

module _ {x : Externals} where
  unfoldable pub check_host_in_proxy_list : AccessControl x → Text → Option Bool
  unfolding convert_to_ascii check_ascii_host_in_proxy_list
  check_host_in_proxy_list acl host = check_ascii_host_in_proxy_list acl (convert_to_ascii x host)

  unfoldable pub check_target_bypassed :
      (Text × ℕ → Result (List SocketAddr)) → AccessControl x → Address → Bool
  unfolding check_host_in_proxy_list
  check_target_bypassed lookup_host acl (socket_address addr) =
      not (check_ip_in_proxy_list acl addr.ip)
  check_target_bypassed lookup_host acl (domain_address host port) =
      elim (check_host_in_proxy_list acl host) [
        | some value ↦ not value
        | none ↦
            if is_ip_empty acl
            then not (is_default_in_proxy_list acl)
            else any_resolved (λ addr. not (check_ip_in_proxy_list acl addr.ip))
                (dns_resolve lookup_host host port)
      ]

  unfoldable pub check_client_blocked : AccessControl x → SocketAddr → Bool
  check_client_blocked acl addr = elim acl.mode [
    | black_list ↦ check_ip_matched acl.black_list addr.ip
    | white_list ↦ not (check_ip_matched acl.white_list addr.ip)
  ]

  unfoldable pub check_outbound_blocked :
      (Text × ℕ → Result (List SocketAddr)) → AccessControl x → Address → Bool
  unfolding convert_to_ascii
  check_outbound_blocked lookup_host acl (socket_address saddr) =
      check_ip_matched acl.outbound_block saddr.ip
  check_outbound_blocked lookup_host acl (domain_address host port) =
      if check_host_matched acl.outbound_block (convert_to_ascii x host)
      then true
      else any_resolved (λ addr. check_ip_matched acl.outbound_block addr.ip)
          (dns_resolve lookup_host host port)
