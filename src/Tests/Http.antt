-- ===== src/Tests/Http.antt =====
-- The HTTP proxy on concrete requests.
use socks_hub.Prelude.{◌↔◌, ◌≡◌, ◌≢◌, refl, ◌⊎◌, true, [], ◌++◌, none, some, arith, All}
use socks_hub.Text.{Text, codes, eqb, strip_prefix}
use socks_hub.Text.Utf8.{as_bytes}
use socks_hub.Io.{ok}
use socks_hub.Net.{Address, domain_address}
use socks_hub.Base64.{base64_encode, base64_decode, standard}
use socks_hub.Credentials.{Credentials, new, to_vec, is_empty, user_key, try_into}
use socks_hub.Config.{get_credentials, get_s5_credentials}
use socks_hub.Acl.Center.{Center, must_proxied}
use socks_hub.Network.{create_s5_connect}
use socks_hub.Http2Socks.World.{
  HttpRequest, connect, other_method, authorization, proxy_authorization, local, upstream,
}
use socks_hub.Http2Socks.Authorization.{
  get_proxy_authorization, decode_basic, verify_basic_authorization, verify-encoded_iff,
}
use socks_hub.Http2Socks.Proxy.{is_connect, proxy_internal, proxy_connect, proxy_plain, proxy}
use socks_hub.Http2Socks.Proxy.Safety.{
  proxy_needs_authorization, IsRouted, proxy-IsRouted, IsWithout, proxy-IsWithout,
}
use socks_hub.Http2Socks.Proxy.Session.{Served, fresh, proxy-Session}
use socks_hub.Effects.Sessions.{Session}
use socks_hub.Tests.Plain.{plain}
use socks_hub.Tests.Toy.{toy_world, toy_laws, toy_base64, toy_base64_laws, HeaderMap, guarded}

-- What a test of the proxy computes with.
unfoldable pub run_proxy : Unit {0}
unfolding proxy proxy_plain proxy_connect proxy_internal create_s5_connect get_proxy_authorization
    verify_basic_authorization decode_basic strip_prefix eqb base64_decode base64_encode to_vec
    is_empty as_bytes user_key try_into get_credentials get_s5_credentials must_proxied
run_proxy = tt

abbrev pub center : Center plain
center = some none

abbrev good : Text
good = codes "Basic ann:pw"

abbrev headers : HeaderMap
headers authorization = none
headers proxy_authorization = some good

abbrev pub request : HttpRequest toy_world
request = record {
  method = other_method (codes "GET");
  host = some (codes "example.org");
  port = none;
  headers = headers;
  body = [];
}

answers :
    ((proxy toy_world center guarded request).1 ≡ ok (upstream (codes "hello")))
    × ((proxy toy_world center guarded (record request { headers = λ h. none })).1
        ≡ ok (local 401 []))
    × ((proxy toy_world center guarded (record request { method = connect })).1 ≡ ok (local 200 []))
unfolding run_proxy
answers = (refl, refl, refl)

acts_lem : (proxy toy_world center guarded request).0 ≢ []
unfolding run_proxy
acts_lem = λ e. ground arith

proxy_needs_authorization_example :
    (verify_basic_authorization toy_world
        (get_credentials guarded)
        (get_proxy_authorization toy_world request).1
      ≡ true)
    ⊎ ((is_connect request.method ≡ true) × ((get_proxy_authorization toy_world request).0 ≡ none))
proxy_needs_authorization_example =
    proxy_needs_authorization toy_world center guarded request acts_lem

proxy-IsRouted_example :
    All (IsRouted toy_world center guarded request) (proxy toy_world center guarded request).0
proxy-IsRouted_example = proxy-IsRouted toy_world center guarded request

read_lem : (get_proxy_authorization toy_world request).0 ≡ some proxy_authorization
unfolding run_proxy
read_lem = refl

proxy-IsWithout_example :
    All
      (IsWithout toy_world center guarded proxy_authorization)
      (proxy toy_world center guarded request).0
proxy-IsWithout_example =
    proxy-IsWithout toy_world center guarded toy_laws request proxy_authorization read_lem

abbrev dst : Address
dst = domain_address (codes "example.org") 443

abbrev ann : Credentials
ann = new (codes "ann") (codes "pw")

carried_lem : some good ≡ some (codes "Basic " ++ base64_encode toy_base64 (to_vec ann) standard)
unfolding run_proxy
carried_lem = refl

verify-encoded_iff_example : (verify_basic_authorization toy_world ann (some good) ≡ true) ↔ (
    (as_bytes (codes "ann") ≡ as_bytes (codes "ann"))
    × (as_bytes (codes "pw") ≡ as_bytes (codes "pw")))
verify-encoded_iff_example =
    verify-encoded_iff toy_world toy_base64_laws ann ann good refl refl carried_lem

proxy-Session_example :
    Served toy_world request.host request.port fresh (proxy toy_world center guarded request).0
proxy-Session_example = proxy-Session toy_world center guarded request
