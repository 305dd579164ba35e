-- ===== src/Tests/Settings.antt =====
-- The configuration, the host program's interface, and the list that the servers ask.
use socks_hub.Prelude.{◌≡◌, ◌||◌, refl, true, false, not, [], ◌∷◌, none, some, ℕ, List}
use socks_hub.Text.{Text, codes}
use socks_hub.Io.{Result, ok}
use socks_hub.Net.{SocketAddr, v4}
use socks_hub.Config.{Config, default}
use socks_hub.Acl.Rules
use socks_hub.Acl.Rules.{check_ip_matched, check_host_matched}
use socks_hub.Acl.AccessControl.{AccessControl, proxy}
use socks_hub.Acl.AccessControl.Checks.{is_ip_empty, check_host_in_proxy_list, convert_to_ascii}
use socks_hub.Acl.Center.{init_center, must_proxied}
use socks_hub.Acl.Center.File.{must_proxied_file}
use socks_hub.Acl.Reading.Files.{file_builds, file_names}
use socks_hub.Tests.Plain.{plain}
use socks_hub.Tests.Access.{run_acl, files, path, lines, acl}

abbrev listed : Config
listed = record default { acl_file = some path }

must_proxied_file_example :
    must_proxied (init_center plain files listed none) (codes "www.example.org.") ≡ (
      not (file_builds plain lines)
      || file_names plain proxy lines (convert_to_ascii plain (codes "www.example.org.")))
must_proxied_file_example =
    must_proxied_file plain files listed path lines (codes "www.example.org.") refl refl

abbrev client : SocketAddr
client = record { ip = v4 9; port = 80 }

no_addresses : is_ip_empty acl ≡ true
unfolding run_acl is_ip_empty Rules.is_ip_empty
no_addresses = refl

-- The list with one address to bypass.
abbrev with_address : AccessControl plain
with_address = record acl { black_list = record acl.black_list { ipv4 = (3, 1) ∷ [] } }

abbrev resolver : Text × ℕ → Result (List SocketAddr)
resolver (host, port) = ok (client ∷ record { ip = v4 3; port = port } ∷ [])

undecided : check_host_in_proxy_list with_address (codes "example.com") ≡ none
unfolding run_acl
undecided = refl

has_addresses : is_ip_empty with_address ≡ false
unfolding run_acl is_ip_empty Rules.is_ip_empty
has_addresses = refl
