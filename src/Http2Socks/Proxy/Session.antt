-- ===== src/Http2Socks/Proxy/Session.antt =====
-- The order of what `proxy` and `tunnel` of src/http2socks.rs do.
use socks_hub.Prelude.{ℕ, ◌≡◌, refl, List, [], Option, none, some, Bool-cases, inl, inr}
use socks_hub.Text.{Text}
use socks_hub.Net.{SocketAddr, Address}
use socks_hub.Credentials.{UserKey, user_key}
use socks_hub.Config.{Config, get_credentials, get_s5_credentials}
use socks_hub.Acl.Externals.{Externals}
use socks_hub.Acl.Center.{Center, must_proxied}
use socks_hub.Effects.Sessions.{on_success, Session, ends, goes, continue-Session}
use socks_hub.Network.{
  dial_host, dial_addr, dial_timeout, socks_request, copy, map_err_other, connect_timeout_secs,
}
use socks_hub.Network.Sessions.{create_s5_connect-Session}
use socks_hub.Http2Socks.World.{
  World, HeaderName, HttpRequest, Action, net, shake_hands, send_request, spawn_tunnel,
}
use socks_hub.Http2Socks.Authorization.{get_proxy_authorization, verify_basic_authorization}
use socks_hub.Http2Socks.Proxy.{
  is_connect, unwrap_or, proxy_internal, without, proxy_connect, proxy_plain, forward, is_checked,
  proxy,
}

-- How far the service of a request, or a tunnel, has come: nothing is done yet, the SOCKS5 server
-- has been dialled for a target, a stream leads to the target, an HTTP client speaks over it, and
-- nothing more is to be done.
pub data Stage (w : World) : Type 0 where
  fresh : Stage w
  dialled : Address → w.network.Stream → Stage w
  connected : w.network.Stream → Stage w
  ready : w.Sender → Stage w
  over : Stage w

module _ (w : World) where
  -- One action for a request to a host and a port, and the stage that its outcome leads to.
  pub data Turn (host : Option Text) (port : Option ℕ) : Stage w → Action w → Stage w → Type 0 where
    starts :
        {h : Text} (req : HttpRequest w) (server : SocketAddr) (auth : Option UserKey)
        → host ≡ some h
        → Turn host port fresh
            (spawn_tunnel req (w.network.address_from h (unwrap_or 80 port)) server auth)
            over
    dials :
        Turn host port fresh (net (dial_host (unwrap_or [] host) (unwrap_or 80 port))) (
          on_success over
            (w.network.connect_host (unwrap_or [] host) (unwrap_or 80 port))
            connected)
    dials_server :
        (server : SocketAddr) (secs : ℕ)
        → Turn host port fresh (net (dial_timeout server secs)) (
            on_success over
              (w.network.connect_timeout server secs)
              (dialled (w.network.address_from (unwrap_or [] host) (unwrap_or 80 port))))
    requests :
        {dst : Address} {stream : w.network.Stream} (auth : Option UserKey)
        → Turn host port
            (dialled dst stream)
            (net (socks_request stream dst auth))
            (on_success over (w.network.socks_connect stream dst auth) (λ done. connected stream))
    shakes :
        {stream : w.network.Stream}
        → Turn host port
            (connected stream)
            (shake_hands stream)
            (on_success over (map_err_other (w.handshake stream)) ready)
    sends :
        {sender : w.Sender} (req : HttpRequest w)
        → Turn host port
            (ready sender)
            (send_request sender req)
            (on_success over (map_err_other (w.send sender req)) (λ resp. over))

  -- One action of a tunnel from a client's stream to a target.
  pub data TunnelTurn (client : w.network.Stream) (dst : Address)
      : Stage w → Action w → Stage w → Type 0 where
    tunnel_dials :
        (addr : SocketAddr)
        → TunnelTurn client dst fresh
            (net (dial_addr addr))
            (on_success over (w.network.connect_addr addr) connected)
    tunnel_dials_server :
        (server : SocketAddr) (secs : ℕ)
        → TunnelTurn client dst fresh
            (net (dial_timeout server secs))
            (on_success over (w.network.connect_timeout server secs) (dialled dst))
    tunnel_requests :
        {stream : w.network.Stream} (auth : Option UserKey)
        → TunnelTurn client dst
            (dialled dst stream)
            (net (socks_request stream dst auth))
            (on_success over (w.network.socks_connect stream dst auth) (λ done. connected stream))
    tunnel_copies :
        {stream : w.network.Stream}
        → TunnelTurn client dst (connected stream) (net (copy client stream)) over

-- The actions for a request from a stage on.
abbrev pub Served : (w : World) → Option Text → Option ℕ → Stage w → List (Action w) → Type 0
Served w host port = Session over (Turn w host port)

module _ (w : World) {x : Externals} (center : Center x) where
  internal-Served :
      (req : HttpRequest w) (stream : w.network.Stream)
      → Served w req.host req.port (connected stream) (proxy_internal w stream req).0
  unfolding proxy_internal
  internal-Served req stream = goes shakes (
      continue-Session over (Turn w req.host req.port) _ ready _ (λ sender.
        goes (sends req)
          (continue-Session over (Turn w req.host req.port) _ (λ resp. over) _ (λ resp. ends))))

  plain-Served :
      (config : Config) (req : HttpRequest w)
      → Served w req.host req.port fresh (proxy_plain w center config req).0
  unfolding proxy_plain
  plain-Served config req = elim (Bool-cases (must_proxied center (unwrap_or [] req.host))) [
    | inr direct ↦ rw direct (
        goes dials
          (continue-Session over (Turn w req.host req.port) _ connected _ (internal-Served req)))
    | inl proxied ↦ rw proxied (
        create_s5_connect-Session net over (Turn w req.host req.port)
          (dialled (w.network.address_from (unwrap_or [] req.host) (unwrap_or 80 req.port)))
          connected fresh config.server_addr connect_timeout_secs _
          (user_key (get_s5_credentials config)) (λ stream. proxy_internal w stream req)
          (dials_server config.server_addr connect_timeout_secs)
          (λ stream. requests (user_key (get_s5_credentials config))) (internal-Served req))
  ]

  connect-Served :
      (config : Config) (req : HttpRequest w)
      → Served w req.host req.port fresh (proxy_connect w center config req).0
  unfolding proxy_connect
  connect-Served config req = by_host req.host refl
    where
      by_host :
          (o : Option Text)
          → req.host ≡ o
          → Served w req.host req.port fresh (proxy_connect w center config req).0
      by_host none e = rw e ends
      by_host (some h) e =
          rw e (goes (starts _ config.server_addr (user_key (get_s5_credentials config)) refl) ends)

  forward-Served :
      (config : Config) (req : HttpRequest w)
      → Served w req.host req.port fresh (forward w center config req).0
  forward-Served config req = elim (Bool-cases (is_connect req.method)) [
    | inl tunnels ↦ rw tunnels (connect-Served config req)
    | inr plain ↦ rw plain (plain-Served config req)
  ]

  without-Served :
      (config : Config) (header : Option HeaderName) (req : HttpRequest w)
      → Served w req.host req.port fresh (forward w center config (without w header req)).0
  without-Served config none req = forward-Served config req
  without-Served config (some h) req = forward-Served config (without w (some h) req)

  -- What is done for a request is a session: one tunnel is started for it, to its own host and
  -- port; or a stream to them is made, directly or through the SOCKS5 server, which is asked for
  -- them over the stream that dialling it gave; then an HTTP client is made over that stream, and
  -- at most one request is sent, by that client. An action that fails is the last one.
  pub proxy-Session :
      (config : Config) (req : HttpRequest w)
      → Served w req.host req.port fresh (proxy w center config req).0
  unfolding proxy
  proxy-Session config req = elim (Bool-cases (is_checked w center config req)) [
    | inr free ↦ rw free (forward-Served config req)
    | inl checked ↦
        rw checked
          (elim (Bool-cases (
            verify_basic_authorization w (get_credentials config)
              (get_proxy_authorization w req).1)) [
                | inl right ↦ rw right (without-Served config (get_proxy_authorization w req).0 req)
                | inr wrong ↦ rw wrong ends
              ])
  ]
