-- ===== src/Tests/Socks.antt =====
-- The SOCKS5 server and its UDP relay on concrete inputs.
use socks_hub.Prelude.{◌≡◌, refl, true, false, [], ◌∷◌, List, none, some, arith, All, ◌≤◌}
use socks_hub.Text.{codes}
use socks_hub.Io.{ok}
use socks_hub.Net.{SocketAddr, v4, Address, domain_address}
use socks_hub.Acl.Center.{Center}
use socks_hub.Http2Socks.World.{HttpRequest, local, empty}
use socks_hub.Http2Socks.Authorization.{get_proxy_authorization}
use socks_hub.Http2Socks.Proxy.{proxy}
use socks_hub.Socks2Socks.Client.{Client, verdict, connect}
use socks_hub.Socks2Socks.Handle.{handle}
use socks_hub.Socks2Socks.Handle.Safety.{IsPermitted, handle-IsPermitted}
use socks_hub.Socks2Socks.Handle.Stages.{Served, fresh, replies}
use socks_hub.Socks2Socks.Handle.Session.{handle-Session}
use socks_hub.Socks2Socks.Udp.{
  Incoming, UdpEvent, from_client, from_server, closed, to_server, to_client, round, relay,
}
use socks_hub.Socks2Socks.Udp.Relay.{IsFor, first_source, relay-answers_first}
use socks_hub.Socks2Socks.Server.{no_auth, choose_auth, choose_auth-username_only}
use socks_hub.Tests.Plain.{plain}
use socks_hub.Tests.Http.{request}
use socks_hub.Tests.Toy.{toy_network, toy_world, half_set, server}

abbrev pub target : Address
target = domain_address (codes "example.org") 443

abbrev pub client : Client toy_network
client = record {
  authenticate = ok (verdict (ok true));
  wait_request = ok (connect target);
  reply = λ r a. ok 5;
  shutdown = λ s. ok tt;
  peer_addr = λ s. ok server;
  tracing = false;
  unspecified = domain_address [] 0;
}

abbrev pub center : Center plain
center = some none

handle-IsPermitted_example :
    All (IsPermitted center client (ok tt) server none) (handle center client (ok tt) server none).0
handle-IsPermitted_example = handle-IsPermitted center client (ok tt) server none

handle-Session_example :
    Served client fresh (handle center client (ok tt) server none).0
    × (replies (handle center client (ok tt) server none).0 ≤ 1)
handle-Session_example = handle-Session center client (ok tt) server none

abbrev pub first : SocketAddr
first = record { ip = v4 1; port = 5000 }

abbrev pub second : SocketAddr
second = record { ip = v4 2; port = 5001 }

abbrev pub datagram : SocketAddr → Incoming
datagram src = record { pkt = 1 ∷ []; frag = 0; dst_addr = target; src_addr = src }

abbrev pub events : List UdpEvent
events =
    from_client (ok (datagram first)) (ok tt)
    ∷ from_client (ok (datagram second)) (ok tt)
    ∷ from_server (ok (2 ∷ [], target)) (ok tt)
    ∷ closed
    ∷ []

relayed : relay none events ≡ (
  to_server (1 ∷ []) target ∷ to_server (1 ∷ []) target ∷ to_client (2 ∷ []) target first ∷ [],
  some (ok tt),
)
unfolding relay round
relayed = refl

relay-answers_first_example : All (IsFor (first_source events)) (relay none events).0
relay-answers_first_example = relay-answers_first events

ended_lem : (relay none events).1 ≡ some (ok tt)
unfolding relay round
ended_lem = refl

-- A request with no header at all.
abbrev bare : HttpRequest toy_world
bare = record request { headers = λ h. none }

bare_lem : get_proxy_authorization toy_world bare ≡ (none, none)
unfolding get_proxy_authorization
bare_lem = refl

choose_auth-username_only_example :
    (choose_auth half_set ≡ no_auth)
    × (proxy toy_world center half_set bare ≡ ([], ok (local 401 empty)))
choose_auth-username_only_example =
    choose_auth-username_only toy_world center half_set (codes "ann") bare refl refl
      (λ e. ground arith) bare_lem refl
