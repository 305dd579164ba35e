-- ===== src/Http2Socks/Proxy/Safety.antt =====
-- What the actions of `proxy` and `tunnel` can be: who is let in, where a request goes, and what of
-- it goes there.
use mathlib.Core.Bool.{false≢true}
use socks_hub.Prelude.{
  ◌≡◌, ◌≢◌, refl, sym, ap, ◌∙◌, ◌⊎◌, inl, inr, true, false, List, [], ◌∷◌, Option, none, some,
  arith, All, Bool-cases,
}
use socks_hub.Io.{ok}
use socks_hub.Net.{SocketAddr, Address}
use socks_hub.Credentials.{UserKey, user_key}
use socks_hub.Config.{Config, get_credentials, get_s5_credentials}
use socks_hub.Acl.Externals.{Externals}
use socks_hub.Acl.Center.{Center, must_proxied}
use socks_hub.Effects.{Run}
use socks_hub.Network.{
  dial_host, dial_addr, dial_timeout, socks_request, copy, connect_timeout_secs,
}
use socks_hub.Http2Socks.World.{
  World, HeaderLaws, HeaderName, HttpRequest, Response, local, Action, net, shake_hands,
  send_request, spawn_tunnel,
}
use socks_hub.Http2Socks.Authorization.{get_proxy_authorization, verify_basic_authorization}
use socks_hub.Http2Socks.Proxy.{
  is_connect, unwrap_or, without, is_checked, forward, proxy_connect, proxy_plain, proxy, tunnel,
}

module _ (w : World) {x : Externals} (center : Center x) (config : Config) where
  -- A client whose credentials are looked at and do not fit gets 401, and nothing is done for it.
  pub proxy_refuses :
      (req : HttpRequest w)
      → is_checked w center config req ≡ true
      → verify_basic_authorization w (get_credentials config) (get_proxy_authorization w req).1
        ≡ false
      → proxy w center config req ≡ ([], ok (local 401 []))
  unfolding proxy
  proxy_refuses req checked wrong = rw (checked, wrong) refl

  -- The program acts on a request only if its header carries the configured credentials, or if it
  -- is a CONNECT without either header.
  pub proxy_needs_authorization :
      (req : HttpRequest w)
      → (proxy w center config req).0 ≢ []
      → (verify_basic_authorization w (get_credentials config) (get_proxy_authorization w req).1
          ≡ true)
        ⊎ ((is_connect req.method ≡ true) × ((get_proxy_authorization w req).0 ≡ none))
  proxy_needs_authorization req acts = elim (Bool-cases (is_checked w center config req)) [
    | inr unchecked ↦ inr (ground arith, ground arith)
    | inl checked ↦
        elim (Bool-cases (
          verify_basic_authorization w (get_credentials config)
            (get_proxy_authorization w req).1)) [
              | inl fits ↦ inl fits
              | inr wrong ↦ absurd (
                  acts (
                    ap (λ (r : Run (Action w) (Response w.Body)). r.0)
                      (proxy_refuses req checked wrong)))
            ]
  ]

  -- Where the actions for a request `req` may go.
  abbrev pub IsRouted : HttpRequest w → Action w → Type 0
  IsRouted req (net (dial_host host port)) =
      (must_proxied center (unwrap_or [] req.host) ≡ false)
      × (host ≡ unwrap_or [] req.host)
      × (port ≡ unwrap_or 80 req.port)
  IsRouted req (net (dial_addr addr)) = ⊥
  IsRouted req (net (dial_timeout server secs)) =
      (must_proxied center (unwrap_or [] req.host) ≡ true)
      × (server ≡ config.server_addr)
      × (secs ≡ connect_timeout_secs)
  IsRouted req (net (socks_request stream dst auth)) =
      (must_proxied center (unwrap_or [] req.host) ≡ true)
      × (dst ≡ w.network.address_from (unwrap_or [] req.host) (unwrap_or 80 req.port))
      × (auth ≡ user_key (get_s5_credentials config))
  IsRouted req (net (copy a b)) = ⊥
  IsRouted req (shake_hands stream) = Unit
  IsRouted req (send_request sender r) =
      (r.method ≡ req.method) × (r.host ≡ req.host) × (r.port ≡ req.port) × (r.body ≡ req.body)
  IsRouted req (spawn_tunnel r dst server auth) =
      (is_connect req.method ≡ true)
      × (some dst ≡ elim req.host [
        | none ↦ none
        | some h ↦ some (w.network.address_from h (unwrap_or 80 req.port))
      ])
      × (server ≡ config.server_addr)
      × (auth ≡ user_key (get_s5_credentials config))

  proxy_plain-IsRouted :
      (req : HttpRequest w) → All (IsRouted req) (proxy_plain w center config req).0
  unfolding proxy_plain
  proxy_plain-IsRouted req = ground arith

  proxy_connect-IsRouted :
      (req : HttpRequest w)
      → is_connect req.method ≡ true
      → All (IsRouted req) (proxy_connect w center config req).0
  unfolding proxy_connect
  proxy_connect-IsRouted req h = ground arith

  forward-IsRouted :
      (header : Option HeaderName) (req : HttpRequest w)
      → All (IsRouted req) (forward w center config (without w header req)).0
  forward-IsRouted none req = elim (Bool-cases (is_connect req.method)) [
    | inl tunnelled ↦ rw tunnelled (proxy_connect-IsRouted req tunnelled)
    | inr other ↦ rw other (proxy_plain-IsRouted req)
  ]
  forward-IsRouted (some h) req = elim (Bool-cases (is_connect req.method)) [
    | inl tunnelled ↦ rw tunnelled (proxy_connect-IsRouted (without w (some h) req) tunnelled)
    | inr other ↦ rw other (proxy_plain-IsRouted (without w (some h) req))
  ]

  -- An action of `proxy` is one of the branches that go on.
  proxy-Each :
      (P : Action w → Type 0) (req : HttpRequest w)
      → (is_checked w center config req ≡ true
          → All P (forward w center config (without w (get_proxy_authorization w req).0 req)).0)
      → (is_checked w center config req ≡ false → All P (forward w center config req).0)
      → All P (proxy w center config req).0
  unfolding proxy
  proxy-Each P req authorized open_to_all = elim (Bool-cases (is_checked w center config req)) [
    | inr unchecked ↦ rw unchecked (open_to_all unchecked)
    | inl checked ↦
        elim (Bool-cases (
          verify_basic_authorization w (get_credentials config)
            (get_proxy_authorization w req).1)) [
              | inl fits ↦ rw (checked, fits) (authorized checked)
              | inr wrong ↦ rw (checked, wrong) tt
            ]
  ]

  -- Every action for a request goes where the configuration and the access control list say: a
  -- host is dialled directly only if it must not be proxied, the SOCKS5 server is dialled at its
  -- configured address, under the timeout and with its configured credentials, only for a host
  -- that must be proxied, the request reaches an upstream server with its method, target and body,
  -- and a tunnel is started for CONNECT alone.
  pub proxy-IsRouted : (req : HttpRequest w) → All (IsRouted req) (proxy w center config req).0
  proxy-IsRouted req =
      proxy-Each (IsRouted req) req (λ _. forward-IsRouted (get_proxy_authorization w req).0 req)
        (λ _. forward-IsRouted none req)

  -- No request leaves with the header `h`.
  abbrev pub IsWithout : HeaderName → Action w → Type 0
  IsWithout h (net a) = Unit
  IsWithout h (shake_hands stream) = Unit
  IsWithout h (send_request sender r) = w.get r.headers h ≡ none
  IsWithout h (spawn_tunnel r dst server auth) = w.get r.headers h ≡ none

  forward-IsWithout :
      (h : HeaderName) (req : HttpRequest w)
      → w.get req.headers h ≡ none
      → All (IsWithout h) (forward w center config req).0
  unfolding proxy_plain proxy_connect
  forward-IsWithout h req gone = ground arith

  -- The header that the program read goes no further, where removing a header leaves none of its
  -- values.
  pub proxy-IsWithout :
      (laws : HeaderLaws w) (req : HttpRequest w) (h : HeaderName)
      → (get_proxy_authorization w req).0 ≡ some h
      → All (IsWithout h) (proxy w center config req).0
  proxy-IsWithout laws req h read =
      let checked : is_checked w center config req ≡ true = rw read (ground arith) in
      proxy-Each (IsWithout h) req
        (λ _.
          rw read
            (forward-IsWithout h (without w (some h) req) (laws.get-remove_self req.headers h)))
        (λ unchecked. absurd (false≢true (sym unchecked ∙ checked)))

module _ (w : World) {x : Externals} (center : Center x) where
  -- Where the actions of a tunnel may go.
  abbrev pub IsTunnelled :
      w.network.Stream → Address → SocketAddr → Option UserKey → Action w → Type 0
  IsTunnelled client dst server auth (net (dial_host host port)) = ⊥
  IsTunnelled client dst server auth (net (dial_addr addr)) =
      (must_proxied center (w.network.domain dst) ≡ false)
      × ((rest : List SocketAddr) × (w.network.to_socket_addrs dst ≡ ok (addr ∷ rest)))
  IsTunnelled client dst server auth (net (dial_timeout s secs)) =
      (must_proxied center (w.network.domain dst) ≡ true)
      × (s ≡ server)
      × (secs ≡ connect_timeout_secs)
  IsTunnelled client dst server auth (net (socks_request stream d a)) =
      (must_proxied center (w.network.domain dst) ≡ true) × (d ≡ dst) × (a ≡ auth)
  IsTunnelled client dst server auth (net (copy a b)) = a ≡ client
  IsTunnelled client dst server auth _ = ⊥

  -- A tunnel dials the target itself only if the target must not be proxied, and then the first
  -- address that it resolves to; otherwise it dials the SOCKS5 server that it was given and asks
  -- for that target; and it copies between the client and what it has dialled.
  pub tunnel-IsTunnelled :
      (client : w.network.Stream) (dst : Address) (server : SocketAddr) (auth : Option UserKey)
      → All (IsTunnelled client dst server auth) (tunnel w center client dst server auth).0
  unfolding tunnel
  tunnel-IsTunnelled client dst server auth = ground arith
