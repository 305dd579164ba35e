-- ===== src/Http2Socks/Proxy/Upstream.antt =====
-- When `proxy` passes on an answer from upstream.
use socks_hub.Prelude.{
  ◌≡◌, ◌≢◌, refl, ◌↔◌, ◌⊎◌, inl, inr, true, false, [], Option, none, some, arith, Bool-cases,
}
use socks_hub.Io.{ok}
use socks_hub.Credentials.{user_key}
use socks_hub.Config.{Config, get_credentials, get_s5_credentials}
use socks_hub.Acl.Externals.{Externals}
use socks_hub.Acl.Center.{Center, must_proxied}
use socks_hub.Network.{dial_host, connect_timeout_secs, create_s5_connect, create_s5_connect-eq-ok}
use socks_hub.Effects.{Run, act, ◌>>=◌, bind-eq-ok}
use socks_hub.Http2Socks.World.{World, HeaderName, HttpRequest, upstream, Action, net}
use socks_hub.Http2Socks.Authorization.{get_proxy_authorization, verify_basic_authorization}
use socks_hub.Http2Socks.Proxy.{
  is_connect, unwrap_or, without, is_checked, forward, proxy_connect, proxy_plain, proxy_internal,
  proxy,
}
use socks_hub.Http2Socks.Proxy.Answers.{is_admitted}

module _ (w : World) {x : Externals} (center : Center x) (config : Config) where
  -- That a request can be sent over a stream: the stream to its target where the target must not be
  -- proxied, and otherwise the stream to the SOCKS5 server, once that has granted the target.
  abbrev pub IsReached : HttpRequest w → w.network.Stream → Type 0
  IsReached req stream =
      ((must_proxied center (unwrap_or [] req.host) ≡ false)
        × (w.network.connect_host (unwrap_or [] req.host) (unwrap_or 80 req.port) ≡ ok stream))
      ⊎ ((must_proxied center (unwrap_or [] req.host) ≡ true)
          × (w.network.connect_timeout config.server_addr connect_timeout_secs ≡ ok stream)
          × (w.network.socks_connect stream
                (w.network.address_from (unwrap_or [] req.host) (unwrap_or 80 req.port))
                (user_key (get_s5_credentials config))
              ≡ ok tt))

  -- That upstream has answered a request.
  abbrev pub IsAnswered : HttpRequest w → w.Body → Type 0
  IsAnswered req answer =
      (stream : w.network.Stream) × (sender : w.Sender) × IsReached req stream
      × (w.handshake stream ≡ ok sender)
      × (w.send sender req ≡ ok answer)

  internal-upstream_iff :
      (stream : w.network.Stream) (req : HttpRequest w) (answer : w.Body)
      → ((proxy_internal w stream req).1 ≡ ok (upstream answer))
        ↔ ((sender : w.Sender) × (w.handshake stream ≡ ok sender) × (w.send sender req ≡ ok answer))
  unfolding proxy_internal
  internal-upstream_iff stream req answer = ground arith

  plain-upstream :
      (req : HttpRequest w) (answer : w.Body)
      → IsAnswered req answer
      → (proxy_plain w center config req).1 ≡ ok (upstream answer)
  unfolding proxy_plain create_s5_connect proxy_internal
  plain-upstream req answer (stream, sender, inl (off, dialled), shaken, sent) =
      rw (off, dialled, shaken, sent) refl
  plain-upstream req answer (stream, sender, inr (on, dialled, granted), shaken, sent) =
      rw (on, dialled, granted, shaken, sent) refl

  -- What a chain that ends in `proxy_internal` has gone through.
  bind-proxy_internal :
      (m : Run (Action w) w.network.Stream) (req : HttpRequest w) (answer : w.Body)
      → (m >>= λ stream. proxy_internal w stream req).1 ≡ ok (upstream answer)
      → (stream : w.network.Stream) × (sender : w.Sender) × (m.1 ≡ ok stream)
        × (w.handshake stream ≡ ok sender)
        × (w.send sender req ≡ ok answer)
  bind-proxy_internal m req answer e =
      let (stream, reached, e') =
        bind-eq-ok m (λ stream. proxy_internal w stream req) (upstream answer) e in
      let (sender, shaken, sent) = (internal-upstream_iff stream req answer).0 e' in
      (stream, sender, reached, shaken, sent)

  plain-IsAnswered :
      (req : HttpRequest w) (answer : w.Body)
      → (proxy_plain w center config req).1 ≡ ok (upstream answer)
      → IsAnswered req answer
  unfolding proxy_plain
  plain-IsAnswered req answer e =
      let host = unwrap_or [] req.host in
      let port = unwrap_or 80 req.port in
      let dst = w.network.address_from host port in
      let auth = user_key (get_s5_credentials config) in
      let server = config.server_addr in
      elim (Bool-cases (must_proxied center (unwrap_or [] req.host))) [
        | inl on ↦
            let (stream, sender, s5, shaken, sent) =
              bind-proxy_internal (create_s5_connect net server connect_timeout_secs dst auth) req
                answer (rw on at e) in
            let (connected, granted) =
              create_s5_connect-eq-ok {n = w.network} {Act = Action w} net server
                connect_timeout_secs dst auth stream s5 in
            (stream, sender, inr (on, connected, granted), shaken, sent)
        | inr off ↦
            let (stream, sender, dialled, shaken, sent) =
              bind-proxy_internal
                (act (net (dial_host host port)) (w.network.connect_host host port)) req answer
                (rw off at e) in
            (stream, sender, inl (off, dialled), shaken, sent)
      ]

  connect-not-upstream :
      (req : HttpRequest w) (answer : w.Body)
      → (proxy_connect w center config req).1 ≢ ok (upstream answer)
  unfolding proxy_connect
  connect-not-upstream req answer = λ e. ground arith

  -- The request as it is forwarded.
  abbrev pub as_sent : HttpRequest w → HttpRequest w
  as_sent req = without w (get_proxy_authorization w req).0 req

  forward-upstream_iff :
      (header : Option HeaderName) (req : HttpRequest w) (answer : w.Body)
      → ((forward w center config (without w header req)).1 ≡ ok (upstream answer))
        ↔ ((is_connect req.method ≡ false) × IsAnswered (without w header req) answer)
  forward-upstream_iff header req answer =
      let r = without w header req in
      let there = plain-IsAnswered r answer in
      let back = plain-upstream r answer in
      let never = connect-not-upstream r answer in
      elim header [ none ↦ ground arith | some h ↦ ground arith ]

  -- The program passes on an answer exactly when it comes from upstream: the client is let in, its
  -- method is not CONNECT, the stream to the target, or through the SOCKS5 server where the target
  -- must be proxied, can be had, and over it the request, without the header that was read, is
  -- answered so.
  pub proxy-upstream_iff :
      (req : HttpRequest w) (answer : w.Body)
      → ((proxy w center config req).1 ≡ ok (upstream answer)) ↔ (
          (is_admitted w center config req ≡ true)
          × (is_connect req.method ≡ false)
          × IsAnswered (as_sent req) answer)
  unfolding proxy
  proxy-upstream_iff req answer = elim (Bool-cases (is_checked w center config req)) [
    | inr off ↦
        let unread : (get_proxy_authorization w req).0 ≡ none = ground arith in
        let (there, back) = forward-upstream_iff none req answer in rw (off, unread) (ground arith)
    | inl on ↦
        let (there, back) = forward-upstream_iff (get_proxy_authorization w req).0 req answer in
        elim (Bool-cases (
          verify_basic_authorization w (get_credentials config)
            (get_proxy_authorization w req).1)) [
              | inl fits ↦ rw (on, fits) ground arith
              | inr wrong ↦ rw (on, wrong) ground arith
            ]
  ]
