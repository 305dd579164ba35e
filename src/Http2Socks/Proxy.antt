-- ===== src/Http2Socks/Proxy.antt =====
-- `proxy`, `proxy_internal` and `tunnel` of src/http2socks.rs, with the ACL feature enabled.
pub mod Safety
pub mod Answers
pub mod Upstream
pub mod Session
use socks_hub.Prelude.{
  ℕ, Bool, true, false, not, ◌||◌, List, [], ◌∷◌, Option, none, some, if◌then◌else◌,
}
use socks_hub.Text.{Text, codes}
use socks_hub.Io.{Error, Result, ok, err}
use socks_hub.Net.{SocketAddr, Address}
use socks_hub.Credentials.{UserKey, user_key}
use socks_hub.Config.{Config, get_credentials, get_s5_credentials}
use socks_hub.Acl.Externals.{Externals}
use socks_hub.Acl.Center.{Center, must_proxied}
use socks_hub.Effects.{Run, pure, act, spawned, ◌>>=◌}
use socks_hub.Network.{
  dial_host, dial_addr, copy, map_err_other, connect_timeout_secs, create_s5_connect, first_address,
}
use socks_hub.Http2Socks.World.{
  World, empty, full, Method, connect, other_method, HeaderName, HttpRequest, Response, local,
  upstream, Action, net, shake_hands, send_request, spawn_tunnel,
}
use socks_hub.Http2Socks.Authorization.{get_proxy_authorization, verify_basic_authorization}

abbrev pub is_connect : Method → Bool
is_connect connect = true
is_connect (other_method m) = false

abbrev pub is_some {ℓ} : {A : Type ℓ} → Option A → Bool
is_some none = false
is_some (some a) = true

abbrev pub unwrap_or {ℓ} : {A : Type ℓ} → A → Option A → A
unwrap_or d none = d
unwrap_or d (some a) = a

module _ (w : World) where
  -- `proxy_internal`: an HTTP client over the stream; its task is not modelled.
  unfoldable pub proxy_internal :
      w.network.Stream → HttpRequest w → Run (Action w) (Response w.Body)
  proxy_internal stream req = do
    sender ← act (shake_hands stream) (map_err_other (w.handshake stream))
    resp ← act (send_request sender req) (map_err_other (w.send sender req))
    pure (upstream resp)

  -- The header that was read is taken out of the request.
  abbrev pub without : Option HeaderName → HttpRequest w → HttpRequest w
  without none req = req
  without (some h) req = record req { headers = w.remove req.headers h }

  module _ {x : Externals} (center : Center x) (config : Config) where
    -- The branch of CONNECT.
    unfoldable pub proxy_connect : HttpRequest w → Run (Action w) (Response w.Body)
    proxy_connect req = elim req.host [
      | none ↦ pure (local 400 (full (codes "CONNECT must be to a socket address")))
      | some host ↦ do
        started ←
            act
              (spawn_tunnel req (w.network.address_from host (unwrap_or 80 req.port))
                config.server_addr (user_key (get_s5_credentials config)))
              spawned
        pure (local 200 empty)
    ]

    -- The branch of all other methods.
    unfoldable pub proxy_plain : HttpRequest w → Run (Action w) (Response w.Body)
    unfolding proxy_internal create_s5_connect
    proxy_plain req =
        let host = unwrap_or [] req.host in
        let port = unwrap_or 80 req.port in
        let s5addr = w.network.address_from host port in
        if not (must_proxied center host)
        then (do
          stream ← act (net (dial_host host port)) (w.network.connect_host host port)
          proxy_internal stream req)
        else (do
          stream ←
              create_s5_connect net config.server_addr connect_timeout_secs s5addr
                (user_key (get_s5_credentials config))
          proxy_internal stream req)

    abbrev pub forward : HttpRequest w → Run (Action w) (Response w.Body)
    forward req = if is_connect req.method then proxy_connect req else proxy_plain req

    -- Whether the credentials are looked at.
    abbrev pub is_checked : HttpRequest w → Bool
    is_checked req = not (is_connect req.method) || is_some (get_proxy_authorization w req).0

    unfoldable pub proxy : HttpRequest w → Run (Action w) (Response w.Body)
    unfolding proxy_connect proxy_plain
    proxy req =
        let (auth_header, auth_value) = get_proxy_authorization w req in
        if is_checked req
        then (if not (verify_basic_authorization w (get_credentials config) auth_value)
            then pure (local 401 empty)
            else forward (without auth_header req))
        else forward req

  -- `tunnel`: over the upgraded connection of a client's CONNECT.
  unfoldable pub tunnel :
      {x : Externals} (center : Center x)
      → w.network.Stream
      → Address
      → SocketAddr
      → Option UserKey
      → Run (Action w) (Unit {0})
  unfolding create_s5_connect first_address
  tunnel center upgraded dst server auth =
      if not (must_proxied center (w.network.domain dst))
      then (do
        addr ← first_address net dst
        stream ← act (net (dial_addr addr)) (w.network.connect_addr addr)
        act (net (copy upgraded stream)) (w.network.copy_bidirectional upgraded stream))
      else (do
        stream ← create_s5_connect net server connect_timeout_secs dst auth
        act (net (copy upgraded stream)) (w.network.copy_bidirectional upgraded stream))
