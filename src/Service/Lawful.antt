-- ===== src/Service/Lawful.antt =====
-- A whole run of a server against its configuration and the text of its ACL file.
pub mod Requests
pub mod Connections
use socks_hub.Prelude.{
  ◌≡◌, refl, sym, ◌∙◌, ◌⊎◌, inl, inr, Bool, true, false, not, ◌||◌, List, [], Option, none, some,
  arith, All, All-imp,
}
use socks_hub.Text.{Text}
use socks_hub.Io.{Result, ok, err}
use socks_hub.Net.{SocketAddr, Address}
use socks_hub.Credentials.{UserKey, user_key}
use socks_hub.Config.{Config, http, socks5, get_credentials, get_s5_credentials}
use socks_hub.Acl.Externals.{Externals}
use socks_hub.Acl.AccessControl.{proxy}
use socks_hub.Acl.AccessControl.Checks.{convert_to_ascii}
use socks_hub.Acl.Center.{Center, must_proxied}
use socks_hub.Acl.Reading.Files.{file_builds, file_names}
use socks_hub.Network.{Network, NetAction, dial_host, dial_addr, dial_timeout, socks_request, copy}
use socks_hub.Http2Socks.World.{
  World, HttpRequest, Action, net, shake_hands, send_request, spawn_tunnel,
}
use socks_hub.Http2Socks.Authorization.{get_proxy_authorization, verify_basic_authorization}
use socks_hub.Http2Socks.Proxy.{is_connect, unwrap_or, tunnel}
use socks_hub.Http2Socks.Proxy.Safety.{IsRouted, IsTunnelled, tunnel-IsTunnelled}
use socks_hub.Socks2Socks.Client
use socks_hub.Socks2Socks.Client.{
  Client, ClientAction, ClientRequest, connect, udp_associate, bind, no_verdict, verdict,
  do_authenticate, do_wait_request, send_reply, do_shutdown, start_udp,
}
use socks_hub.Socks2Socks.Server.{Auth, choose_auth}
use socks_hub.Socks2Socks.Handle.Safety.{IsForTarget, IsForRequest, IsPermitted}
use socks_hub.Service.{Host}
use socks_hub.Socks2Socks.Udp.Association.{handle_s5_upd_associate}
use socks_hub.Socks2Socks.Udp.Association.Safety.{
  IsAssociated, handle_s5_upd_associate-IsAssociated,
}
use socks_hub.Service.Tasks.{
  Exchange, Clients, Deed, announced, for_request, in_tunnel, for_client, in_association,
  associated, upgraded_task,
}

-- The client's header carries the configured credentials, or it is a CONNECT without a header.
abbrev pub IsLetIn : Config → Exchange → Type 0
IsLetIn config e =
    (verify_basic_authorization e.world (get_credentials config)
        (get_proxy_authorization e.world e.request).1
      ≡ true)
    ⊎ ((is_connect e.request.method ≡ true)
        × ((get_proxy_authorization e.world e.request).0 ≡ none))

module _ (x : Externals) (config : Config) (lines : List Text) where
  -- Whether the file makes the server proxy a name.
  abbrev pub is_named : Text → Bool
  is_named name = not (file_builds x lines) || file_names x proxy lines (convert_to_ascii x name)

  -- What may be done on the network for a client that wants to reach a name.
  abbrev pub IsLawfulCall : {n : Network} → Text → NetAction n → Type 0
  IsLawfulCall name (dial_host h port) = (is_named name ≡ false) × (h ≡ name)
  IsLawfulCall name (dial_addr addr) = is_named name ≡ false
  IsLawfulCall name (dial_timeout server secs) =
      (is_named name ≡ true) × (server ≡ config.server_addr)
  IsLawfulCall name (socks_request stream dst auth) =
      (is_named name ≡ true) × (auth ≡ user_key (get_s5_credentials config))
  IsLawfulCall name (copy a b) = Unit

  abbrev pub IsCallFor : {w : World} → Text → Action w → Type 0
  IsCallFor name (net a) = IsLawfulCall name a
  IsCallFor name _ = Unit

-- The SOCKS5 client passes its authentication.
abbrev pub IsAccepted : {n : Network} → Client n → Type 0
IsAccepted client =
    (client.authenticate ≡ ok no_verdict) ⊎ (client.authenticate ≡ ok (verdict (ok true)))

module _ {Conn : Type 0} (clients : Clients Conn) (x : Externals) (host : Host Conn)
    (config : Config) (lines : List Text) where
  abbrev pub IsAskedFor : (conn : Conn) → Auth → ClientAction (clients.network conn) → Type 0
  IsAskedFor conn auth (Client.net a) =
      (dst : Address) × ((clients.client conn auth).wait_request ≡ ok (connect dst))
      × IsLawfulCall x config lines ((clients.network conn).domain dst) a
  IsAskedFor conn auth start_udp = (clients.client conn auth).wait_request ≡ ok udp_associate
  IsAskedFor conn auth _ = Unit

  abbrev pub IsLawful : Deed clients → Type 0
  IsLawful (announced addr) = host.bind config.listen_addr ≡ ok (ok addr)
  IsLawful (for_request conn e a) =
      (config.source_type ≡ http)
      × IsLetIn config e
      × IsCallFor x config lines (unwrap_or [] e.request.host) a
  IsLawful (in_tunnel conn e a) =
      (config.source_type ≡ http)
      × IsLetIn config e
      × (is_connect e.request.method ≡ true)
      × ((h : Text) × (e.request.host ≡ some h)
          × IsCallFor x config lines
              (e.tunnel_world.network.domain
                (e.world.network.address_from h (unwrap_or 80 e.request.port)))
              a)
  IsLawful (for_client conn auth a) =
      (config.source_type ≡ socks5)
      × (auth ≡ choose_auth config)
      × ((a ≡ do_authenticate) ⊎ (IsAccepted (clients.client conn auth) × IsAskedFor conn auth a))
  IsLawful (in_association conn auth step) =
      (config.source_type ≡ socks5)
      × (auth ≡ choose_auth config)
      × IsAccepted (clients.client conn auth)
      × ((clients.client conn auth).wait_request ≡ ok udp_associate)
      × IsAssociated (clients.associate conn) config.server_addr
          (user_key (get_s5_credentials config)) step
