-- ===== src/Service/Runs.antt =====
-- Whole runs of a server, from its start over all of its connections.
use socks_hub.Prelude.{
  ◌≡◌, List, map, none, some, All, All-append, All-map, All-flat_map, All-imp, All-every,
}
use socks_hub.Text.{Text}
use socks_hub.Io.{ok}
use socks_hub.Credentials.{user_key}
use socks_hub.Config.{Config, http, socks5, get_s5_credentials}
use socks_hub.Acl.Externals.{Externals}
use socks_hub.Acl.Center.{Center, init_center, must_proxied}
use socks_hub.Acl.Center.File.{must_proxied_file}
use socks_hub.Http2Socks.Proxy
use socks_hub.Http2Socks.Proxy.Safety.{proxy_needs_authorization, proxy-IsRouted}
use socks_hub.Socks2Socks.Server.{choose_auth}
use socks_hub.Socks2Socks.Handle.{handle}
use socks_hub.Socks2Socks.Udp.Association.{handle_s5_upd_associate}
use socks_hub.Socks2Socks.Handle.Safety.{handle-IsPermitted}
use socks_hub.Service.{
  Host, Happening, announce, http_service, socks5_service, Centers, main_entry, http_main_entry,
  socks5_main_entry, IsConfigured, main_entry-IsConfigured, starts_http, starts_socks5,
}
use socks_hub.Service.Schedules.{Schedule, All-Schedule}
use socks_hub.Service.Tasks.{
  Deed, Exchange, Clients, for_request, in_tunnel, for_client, in_association, associated,
  udp_result, upgraded_task, serve_http, build_http_service, serve_socks5, carry_out, run_server,
}
use socks_hub.Service.Lawful.{is_named, IsLawful}
use socks_hub.Service.Lawful.Requests.{routed-IsCallFor, upgraded_task-IsLawful}
use socks_hub.Service.Lawful.Connections.{permitted-IsLawful, associated-IsLawful}

module _ {Conn : Type 0} (clients : Clients Conn) (x : Externals) (host : Host Conn)
    (config : Config) (lines : List Text) where
  module _ (center : Center x)
      (rules : (name : Text) → must_proxied center name ≡ is_named x config lines name) where
    serve_http-IsLawful :
        (conn : Conn)
        → config.source_type ≡ http
        → (e : Exchange)
        → All (All (IsLawful clients x host config lines)) (serve_http clients center config conn e)
    unfolding serve_http
    serve_http-IsLawful conn kind e =
        let entered = proxy_needs_authorization e.world center config e.request in
        let routes = proxy-IsRouted e.world center config e.request in
        let acts = (Proxy.proxy e.world center config e.request).0 in
        (
          All-map _ (for_request conn e) acts (
              All-imp acts
                (λ acted a route. (
                  kind,
                  entered acted,
                  routed-IsCallFor x config lines center rules e.request a route,
                ))
                routes),
          All-map _ (λ a. map (in_tunnel conn e) (upgraded_task center e a)) acts
              (All-imp acts
                (λ acted a route. All-map _ (in_tunnel conn e) _ (
                  upgraded_task-IsLawful x config lines center rules clients host conn e kind
                    (entered acted) a route))
                routes),
        )

    build_http_service-IsLawful :
        (conn : Conn)
        → config.source_type ≡ http
        → All
            (All (IsLawful clients x host config lines))
            (build_http_service clients center config conn)
    unfolding build_http_service
    build_http_service-IsLawful conn kind =
        All-flat_map _ (serve_http clients center config conn) (clients.exchanges conn)
          (All-every (serve_http-IsLawful conn kind) (clients.exchanges conn))

    serve_socks5-IsLawful :
        (conn : Conn)
        → config.source_type ≡ socks5
        → All (IsLawful clients x host config lines) (
            serve_socks5 clients center conn
              (choose_auth config)
              config.server_addr
              (user_key (get_s5_credentials config)))
    unfolding serve_socks5
    serve_socks5-IsLawful conn kind =
        let auth = choose_auth config in
        let key = user_key (get_s5_credentials config) in
        let (steps, result) =
          handle_s5_upd_associate (clients.associate conn) config.server_addr key in
        let client = clients.client conn auth in
        let run_udp = udp_result result in
        let acts = (handle center client run_udp config.server_addr key).0 in
        let lawful : All (λ a. IsLawful clients x host config lines (for_client conn auth a)) acts =
          All-imp acts
            (λ _ a permitted.
              permitted-IsLawful clients x host config lines center rules conn run_udp a kind
                permitted)
            (handle-IsPermitted center client run_udp config.server_addr key) in
        All-append _ (map (for_client conn auth) acts) _
          (All-map _ (for_client conn auth) acts lawful)
          (All-map _ (in_association conn auth) _ (
            All-flat_map _ (associated steps) acts (
              All-imp acts (λ _ a h. associated-IsLawful clients x host config lines conn auth a h)
                lawful)))

  -- A process that has not set an access control list yet.
  abbrev pub unset : Centers x
  unset = record { http_center = none; socks5_center = none }

  module _
      (rules : (name : Text)
        → must_proxied (init_center x host.open_file config none) name
          ≡ is_named x config lines name) where
    http_rules :
        config.source_type ≡ http
        → (name : Text)
        → must_proxied (main_entry host x config unset).0.http_center name
          ≡ is_named x config lines name
    unfolding http_main_entry
    http_rules kind name = rw (starts_http host x config unset kind) (rules name)

    socks5_rules :
        config.source_type ≡ socks5
        → (name : Text)
        → must_proxied (main_entry host x config unset).0.socks5_center name
          ≡ is_named x config lines name
    unfolding socks5_main_entry
    socks5_rules kind name = rw (starts_socks5 host x config unset kind) (rules name)

    carry_out-IsLawful :
        (h : Happening Conn)
        → IsConfigured host x config h
        → All
            (All (IsLawful clients x host config lines))
            (carry_out clients (main_entry host x config unset).0 h)
    carry_out-IsLawful (announce addr) (asked, bound) = ((bound, tt), tt)
    carry_out-IsLawful (http_service conn c) (kind, same) = rw same (
        build_http_service-IsLawful (main_entry host x config unset).0.http_center (http_rules kind)
          conn kind)
    carry_out-IsLawful (socks5_service conn auth server key) (kind, a, s, k) =
        rw (a, s, k)
          (
            serve_socks5-IsLawful (main_entry host x config unset).0.socks5_center
                (socks5_rules kind) conn kind,
            tt,
          )

  -- A whole run keeps to its configuration, for a server that starts with an ACL file whose lines
  -- can be read, in a process that has set no list before. In whatever order its tasks run, and up
  -- to every moment, each of its actions is the announcement of the address that it is bound to, or
  -- it is taken for a client whose request has passed the check of the configured credentials, that
  -- has sent a CONNECT without a header, or that has passed the authentication of SOCKS5, which
  -- itself is the only other one; the target that this client asks for is dialled directly only if
  -- the file does not name it under the white list's headers; otherwise, or if an expression of the
  -- file does not compile, only the configured SOCKS5 server is dialled, and asked with the
  -- configured credentials. A UDP association runs only for a client that asks for one; it goes
  -- over the configured server and answers the first client that sends.
  pub run_server-IsLawful :
      (path : Text) (deeds : List (Deed clients))
      → config.acl_file ≡ some path
      → host.open_file path ≡ ok (map ok lines)
      → Schedule (run_server clients host config unset) deeds
      → All (IsLawful clients x host config lines) deeds
  unfolding run_server
  run_server-IsLawful path deeds named opened schedule =
      let rules =
        λ (name : Text). must_proxied_file x host.open_file config path lines name named opened in
      All-Schedule (IsLawful clients x host config lines) schedule (
        All-flat_map _ (carry_out clients (main_entry host x config unset).0) _ (
          All-imp _ (λ _ h configured. carry_out-IsLawful rules h configured)
            (main_entry-IsConfigured host x config unset).0))
