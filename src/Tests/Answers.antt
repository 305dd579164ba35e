-- ===== src/Tests/Answers.antt =====
-- What the HTTP proxy answers to concrete requests.
use socks_hub.Prelude.{◌≡◌, ◌↔◌, true, false, [], none}
use socks_hub.Text.{codes}
use socks_hub.Io.{ok}
use socks_hub.Http2Socks.World.{local, upstream}
use socks_hub.Http2Socks.Proxy.{is_connect, proxy}
use socks_hub.Http2Socks.Proxy.Answers.{is_admitted, IsOwnAnswer, proxy-local_iff}
use socks_hub.Http2Socks.Proxy.Upstream.{as_sent, IsAnswered, proxy-upstream_iff}
use socks_hub.Tests.Toy.{toy_world, guarded}
use socks_hub.Tests.Http.{center, request}

proxy-local_iff_example :
    ((proxy toy_world center guarded (record request { headers = λ h. none })).1
      ≡ ok (local 401 []))
    ↔ IsOwnAnswer toy_world center guarded (record request { headers = λ h. none }) 401 []
proxy-local_iff_example =
    proxy-local_iff toy_world center guarded (record request { headers = λ h. none }) 401 []

proxy-upstream_iff_example :
    ((proxy toy_world center guarded request).1 ≡ ok (upstream (codes "hello"))) ↔ (
      (is_admitted toy_world center guarded request ≡ true)
      × (is_connect request.method ≡ false)
      × IsAnswered toy_world center guarded
          (as_sent toy_world center guarded request)
          (codes "hello"))
proxy-upstream_iff_example = proxy-upstream_iff toy_world center guarded request (codes "hello")
