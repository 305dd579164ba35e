-- ===== src/Service/Lawful/Requests.antt =====
-- What is done for HTTP requests and in their tunnels is lawful.
use socks_hub.Prelude.{◌≡◌, refl, sym, ◌∙◌, Bool, List, [], Option, none, some, arith, All, All-imp}
use socks_hub.Text.{Text}
use socks_hub.Io.{Result, ok, err}
use socks_hub.Net.{SocketAddr, Address}
use socks_hub.Credentials.{UserKey, user_key}
use socks_hub.Config.{Config, http, get_s5_credentials}
use socks_hub.Acl.Externals.{Externals}
use socks_hub.Acl.Center.{Center, must_proxied}
use socks_hub.Network.{dial_host, dial_addr, dial_timeout, socks_request, copy}
use socks_hub.Http2Socks.World.{
  World, HttpRequest, Action, net, shake_hands, send_request, spawn_tunnel,
}
use socks_hub.Http2Socks.Proxy.{unwrap_or, tunnel}
use socks_hub.Http2Socks.Proxy.Safety.{IsRouted, IsTunnelled, tunnel-IsTunnelled}
use socks_hub.Service.{Host}
use socks_hub.Service.Tasks.{Exchange, Clients, in_tunnel, upgraded_task}
use socks_hub.Service.Lawful.{is_named, IsCallFor, IsLetIn, IsLawful}

module _ (x : Externals) (config : Config) (lines : List Text) where
  -- The routes of a request, by the file.
  module _ (center : Center x)
      (rules : (name : Text) → must_proxied center name ≡ is_named x config lines name) where
    proxied :
        (name : Text) (b : Bool) → must_proxied center name ≡ b → is_named x config lines name ≡ b
    proxied name b e = sym (rules name) ∙ e

    pub routed-IsCallFor :
        {w : World} (req : HttpRequest w) (a : Action w)
        → IsRouted w center config req a
        → IsCallFor x config lines (unwrap_or [] req.host) a
    routed-IsCallFor req (net (dial_host host port)) (direct, same, _) = (proxied _ _ direct, same)
    routed-IsCallFor req (net (dial_addr addr)) never = absurd never
    routed-IsCallFor req (net (dial_timeout server secs)) (on, same, _) = (proxied _ _ on, same)
    routed-IsCallFor req (net (socks_request stream dst auth)) (on, _, same) =
        (proxied _ _ on, same)
    routed-IsCallFor req (net (copy a b)) never = absurd never
    routed-IsCallFor req (shake_hands stream) h = tt
    routed-IsCallFor req (send_request sender r) h = tt
    routed-IsCallFor req (spawn_tunnel r dst server auth) h = tt

    tunnelled-IsCallFor :
        {w : World} (client : w.network.Stream) (dst : Address) (server : SocketAddr)
        (auth : Option UserKey)
        → server ≡ config.server_addr
        → auth ≡ user_key (get_s5_credentials config)
        → (a : Action w) → IsTunnelled w center client dst server auth a
        → IsCallFor x config lines (w.network.domain dst) a
    tunnelled-IsCallFor {w} client dst server auth from key = go
      where
        go :
            (a : Action w)
            → IsTunnelled w center client dst server auth a
            → IsCallFor x config lines (w.network.domain dst) a
        go (net (dial_host host port)) never = absurd never
        go (net (dial_addr addr)) (direct, _) = proxied _ _ direct
        go (net (dial_timeout s secs)) (on, same, _) = (proxied _ _ on, same ∙ from)
        go (net (socks_request stream d auth')) (on, _, same) = (proxied _ _ on, same ∙ key)
        go (net (copy a b)) same = tt
        go (shake_hands stream) h = tt
        go (send_request sender r) h = tt
        go (spawn_tunnel r d s k) h = tt

    -- The task of a tunnel, which a request's route starts.
    pub upgraded_task-IsLawful :
        {Conn : Type 0} (clients : Clients Conn) (host : Host Conn) (conn : Conn) (e : Exchange)
        → config.source_type ≡ http
        → IsLetIn config e
        → (a : Action e.world) → IsRouted e.world center config e.request a
        → All
            (λ b. IsLawful clients x host config lines (in_tunnel conn e b))
            (upgraded_task center e a)
    unfolding upgraded_task
    upgraded_task-IsLawful clients host conn e kind entered (net a) h = tt
    upgraded_task-IsLawful clients host conn e kind entered (shake_hands stream) h = tt
    upgraded_task-IsLawful clients host conn e kind entered (send_request sender r) h = tt
    upgraded_task-IsLawful clients host conn e kind entered (spawn_tunnel r dst server auth)
          (asked, to, from, key) =
        go e.request.host refl to (e.upgrade r)
      where
        go :
            (o : Option Text)
            → e.request.host ≡ o
            → some dst ≡ elim o [
              | none ↦ none
              | some h ↦ some (e.world.network.address_from h (unwrap_or 80 e.request.port))
            ]
            → (u : Result e.tunnel_world.network.Stream)
            → All
                (λ b. IsLawful clients x host config lines (in_tunnel conn e b))
                (elim u [
                  | err failed ↦ []
                  | ok upgraded ↦ (tunnel e.tunnel_world center upgraded dst server auth).0
                ])
        go o at here (err failed) = tt
        go none at here (ok upgraded) = absurd (ground arith)
        go (some h) at here (ok upgraded) =
            let same : dst ≡ e.world.network.address_from h (unwrap_or 80 e.request.port) =
              ground arith in
            All-imp _
              (λ _ b call.
                let made = tunnelled-IsCallFor upgraded dst server auth from key b call in
                (kind, entered, asked, (h, at, rw (← same) made)))
              (tunnel-IsTunnelled e.tunnel_world center upgraded dst server auth)
