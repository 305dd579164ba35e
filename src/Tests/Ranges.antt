-- ===== src/Tests/Ranges.antt =====
-- An ACL file with a network, read and asked.
use socks_hub.Prelude.{ℕ, not, ◌≡◌, refl, List, [], ◌∷◌, ◌++◌, any, map, none, some, if◌then◌else◌}
use socks_hub.Text.{Text, codes, eqb}
use socks_hub.Io.{Result, ok}
use socks_hub.Net.{SocketAddr, v4, domain_address}
use socks_hub.Acl.AccessControl.Checks.{
  check_ip_in_proxy_list, check_client_blocked, check_outbound_blocked,
}
use socks_hub.Acl.Reading.Verdicts.{file_proxies, file_blocks, load_from_file_verdicts}
use socks_hub.Acl.Externals.{Externals, net4}
use socks_hub.Acl.Rules.{Rules, check_ip_matched}
use socks_hub.Acl.AccessControl.{AccessControl, load_from_file, white_list, proxy}
use socks_hub.Acl.SubDomainsTree
use socks_hub.Acl.Reading.Sections.{encloses}
use socks_hub.Acl.Reading.Files.{file_rules, load_from_file_addresses}
use socks_hub.Tests.Plain.{plain, block_contains, blocks_laws}
use socks_hub.Tests.Access.{run_acl, path, from_ok}

abbrev line : Text
line = codes "10.0.0.0/8"

-- One network can be read: 10.0.0.0/8.
abbrev networks : Externals
networks = record plain {
  parse_ip_net = λ t. if eqb t line then some (net4 (0x0a000000, 0x1000000)) else none;
}

abbrev before : List Text
before = codes "[white_list]" ∷ []

abbrev after : List Text
after = codes "[bypass_all]" ∷ codes "||x.net" ∷ []

abbrev files : Text → Result (List (Result Text))
files p = ok (map ok (before ++ line ∷ after))

abbrev nothing : Rules networks
nothing = record {
  ipv4 = [];
  ipv6 = [];
  rule_regex = [];
  rule_set = [];
  rule_tree = SubDomainsTree.empty;
}

abbrev acl : AccessControl networks
acl = from_ok (load_from_file networks files path) (record {
  outbound_block = nothing;
  black_list = nothing;
  white_list = nothing;
  mode = white_list;
  file_path = [];
})

loaded : load_from_file networks files path ≡ ok acl
unfolding run_acl
loaded = refl

load_from_file_addresses_example :
    check_ip_matched acl.white_list (v4 0x0a000001)
    ≡ any
        (λ r. encloses networks block_contains block_contains r (v4 0x0a000001))
        (file_rules networks proxy (before ++ line ∷ after))
load_from_file_addresses_example =
    load_from_file_addresses blocks_laws blocks_laws files path (before ++ line ∷ after) acl proxy
      (v4 0x0a000001) refl loaded

abbrev resolver : Text × ℕ → Result (List SocketAddr)
resolver (host, port) = ok (record { ip = v4 0x0a000001; port = port } ∷ [])

load_from_file_verdicts_example :
    (check_ip_in_proxy_list acl (v4 0x0a000001)
      ≡ file_proxies networks block_contains block_contains
          (before ++ line ∷ after)
          (v4 0x0a000001))
    × (check_client_blocked acl (record { ip = v4 9; port = 80 })
        ≡ not (file_proxies networks block_contains block_contains (before ++ line ∷ after) (v4 9)))
    × (check_outbound_blocked resolver acl (domain_address (codes "example.org") 80)
        ≡ file_blocks networks block_contains block_contains
            (before ++ line ∷ after)
            resolver
            (domain_address (codes "example.org") 80))
load_from_file_verdicts_example =
    load_from_file_verdicts blocks_laws blocks_laws files path (before ++ line ∷ after) acl resolver
      (v4 0x0a000001) (record { ip = v4 9; port = 80 }) (domain_address (codes "example.org") 80)
      refl loaded
