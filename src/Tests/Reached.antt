-- ===== src/Tests/Reached.antt =====
-- A SOCKS5 client that gets its connection.
use socks_hub.Prelude.{◌≡◌, refl, inr, true, none}
use socks_hub.Io.{ok}
use socks_hub.Acl.Center.{must_proxied}
use socks_hub.Socks2Socks.Handle.{handle}
use socks_hub.Socks2Socks.Handle.Liveness.{handle-result}
use socks_hub.Tests.Toy.{toy_network, server}
use socks_hub.Tests.Socks.{center, client, target}

proxied : must_proxied center (toy_network.domain target) ≡ true
unfolding must_proxied
proxied = refl

handle-result_example :
    (handle center client (ok tt) server none).1 ≡ toy_network.copy_bidirectional 3 5
handle-result_example =
    handle-result center client (ok tt) server none target 3 5 (inr refl) refl
      (inr (proxied, refl, refl)) refl refl
