-- ===== src/Service/Tasks.antt =====
-- What the tasks do that a server starts: `build_http_service` of src/http2socks.rs with the tunnel
-- that a CONNECT starts, and the task around `handle` of src/socks2socks.rs. What hyper reads from
-- a connection, and whose SOCKS5 client it is, are parameters.
use socks_hub.Prelude.{List, [], ◌∷◌, map, ◌++◌, flat_map, Option, none, some}
use socks_hub.Io.{Result, ok, err}
use socks_hub.Net.{SocketAddr}
use socks_hub.Credentials.{UserKey}
use socks_hub.Config.{Config}
use socks_hub.Acl.Externals.{Externals}
use socks_hub.Acl.Center.{Center}
use socks_hub.Network.{Network}
use socks_hub.Http2Socks.World.{World, HttpRequest, Action, spawn_tunnel}
use socks_hub.Http2Socks.Proxy.{proxy, tunnel}
use socks_hub.Socks2Socks.Server.{Auth}
use socks_hub.Socks2Socks.Client.{Client, ClientAction, start_udp}
use socks_hub.Socks2Socks.Handle.{handle}
use socks_hub.Socks2Socks.Udp.Association.{Associate, Step, handle_s5_upd_associate}
use socks_hub.Service.{Host, Happening, announce, http_service, socks5_service, Centers, main_entry}

-- A request for which hyper calls the service, with all that answers the program while it serves
-- the request; and the stream that `hyper::upgrade::on` gives for the tunnel, with all that answers
-- the tunnel's task.
pub record Exchange : Type 1 where
  pub world : World
  pub request : HttpRequest world
  pub tunnel_world : World
  pub upgrade : HttpRequest world → Result tunnel_world.network.Stream

-- The clients of a server: the exchanges on a connection, the network that answers a SOCKS5 task,
-- the client on its connection under an authentication, and its UDP association, if it asks for
-- one.
pub record Clients (Conn : Type 0) : Type 1 where
  pub exchanges : Conn → List Exchange
  pub network : Conn → Network
  pub client : (conn : Conn) → Auth → Client (network conn)
  pub associate : Conn → Associate

-- An action of the program, and for whom it is taken.
pub data Deed {Conn : Type 0} (clients : Clients Conn) : Type 1 where
  announced : SocketAddr → Deed clients
  for_request : Conn → (e : Exchange) → Action e.world → Deed clients
  in_tunnel : Conn → (e : Exchange) → Action e.tunnel_world → Deed clients
  for_client : (conn : Conn) → Auth → ClientAction (clients.network conn) → Deed clients
  in_association : Conn → Auth → Step → Deed clients

-- The result of an association; nothing follows it while its relay runs.
abbrev pub udp_result : Option (Result (Unit {0})) → Result (Unit {0})
udp_result none = ok tt
udp_result (some result) = result

-- The steps of the association that `handle` starts.
abbrev pub associated : {n : Network} → List Step → ClientAction n → List Step
associated steps start_udp = steps
associated steps _ = []

module _ {x : Externals} (center : Center x) (e : Exchange) where
  -- The task that `proxy` spawns for CONNECT.
  unfoldable pub upgraded_task : Action e.world → List (Action e.tunnel_world)
  upgraded_task (spawn_tunnel req dst server auth) = elim (e.upgrade req) [
    | err failed ↦ []
    | ok upgraded ↦ (tunnel e.tunnel_world center upgraded dst server auth).0
  ]
  upgraded_task _ = []

module _ {Conn : Type 0} (clients : Clients Conn) {x : Externals} where
  -- The service for a request, and the tasks of the tunnels that it starts.
  unfoldable pub serve_http : Center x → Config → Conn → Exchange → List (List (Deed clients))
  serve_http center config conn e =
      let acts = (proxy e.world center config e.request).0 in
      map (for_request conn e) acts
      ∷ map (λ a. map (in_tunnel conn e) (upgraded_task center e a)) acts

  -- `build_http_service`
  unfoldable pub build_http_service : Center x → Config → Conn → List (List (Deed clients))
  unfolding serve_http
  build_http_service center config conn =
      flat_map (serve_http center config conn) (clients.exchanges conn)

  -- The task of an accepted SOCKS5 connection.
  unfoldable pub serve_socks5 :
      Center x → Conn → Auth → SocketAddr → Option UserKey → List (Deed clients)
  serve_socks5 center conn auth server s5_auth =
      let (steps, result) = handle_s5_upd_associate (clients.associate conn) server s5_auth in
      let acts = (handle center (clients.client conn auth) (udp_result result) server s5_auth).0 in
      map (for_client conn auth) acts
      ++ map (in_association conn auth) (flat_map (associated steps) acts)

  -- The tasks of a happening of `main_entry`.
  abbrev pub carry_out : Centers x → Happening Conn → List (List (Deed clients))
  carry_out centers (announce addr) = (announced addr ∷ []) ∷ []
  carry_out centers (http_service conn config) = build_http_service centers.http_center config conn
  carry_out centers (socks5_service conn auth server s5_auth) =
      serve_socks5 centers.socks5_center conn auth server s5_auth ∷ []

  -- The tasks of a server, from its start on; they run at the same time.
  unfoldable pub run_server : Host Conn → Config → Centers x → List (List (Deed clients))
  run_server host config centers =
      let (centers', (happenings, status)) = main_entry host x config centers in
      flat_map (carry_out centers') happenings
