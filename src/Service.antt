-- ===== src/Service.antt =====
-- `main_entry` of src/lib.rs, which starts the server that the configuration names, and the
-- `main_entry` of src/http2socks.rs and src/socks2socks.rs with its `main_loop`.
pub mod Schedules
pub mod Tasks
pub mod Lawful
pub mod Runs
pub mod Serving
use socks_hub.Prelude.{
  ◌≡◌, refl, sym, ap, ◌∙◌, Bool, true, ◌||◌, List, [], ◌∷◌, map, Option, if◌then◌else◌, arith, All,
}
use socks_hub.Text.{Text}
use socks_hub.Io.{Result, ok, err}
use socks_hub.Net.{SocketAddr}
use socks_hub.Credentials.{UserKey, user_key}
use socks_hub.Config.{Config, ProxyType, http, socks5, get_s5_credentials}
use socks_hub.Acl.Externals.{Externals}
use socks_hub.Acl.Center.{Center, init_center}
use socks_hub.Listener.{Event, Status, returned, accept_loop}
use socks_hub.Socks2Socks.Server.{Auth, choose_auth}

-- What the system answers: `bind` gives the address that the listener then has, or the error of
-- asking for it. `announces` says whether the host passed a callback, `logging` whether the log
-- level makes `log::info!` evaluate its arguments.
pub record Host (Conn : Type 0) : Type 0 where
  pub bind : SocketAddr → Result (Result SocketAddr)
  pub announces : Bool
  pub logging : Bool
  pub open_file : Text → Result (List (Result Text))
  pub events : List (Event Conn)

-- A call of the callback, or the start of a task for a connection.
pub data Happening (Conn : Type 0) : Type 0 where
  announce : SocketAddr → Happening Conn
  http_service : Conn → Config → Happening Conn
  socks5_service : Conn → Auth → SocketAddr → Option UserKey → Happening Conn

-- The `ACL_CENTER` of each server module.
pub record Centers (x : Externals) : Type 0 where
  pub http_center : Center x
  pub socks5_center : Center x

-- The list of the kind of server that is not started.
abbrev pub other : {x : Externals} → ProxyType → Centers x → Center x
other http centers = centers.socks5_center
other socks5 centers = centers.http_center

module _ {Conn : Type 0} (host : Host Conn) where
  abbrev accepting : (Conn → Happening Conn) → List (Happening Conn) × Status
  accepting task = let (conns, status) = accept_loop host.events in (map task conns, status)

  abbrev also_announce :
      SocketAddr → List (Happening Conn) × Status → List (Happening Conn) × Status
  also_announce addr (hs, status) = (announce addr ∷ hs, status)

  -- From binding the listener to the end of the accept loop.
  unfoldable pub listen : SocketAddr → (Conn → Happening Conn) → List (Happening Conn) × Status
  listen addr task = elim (host.bind addr) [
    | err e ↦ ([], returned (err e))
    | ok (err e) ↦ if host.announces || host.logging then ([], returned (err e)) else accepting task
    | ok (ok local) ↦
        if host.announces then also_announce local (accepting task) else accepting task
  ]

  module _ (x : Externals) (config : Config) where
    unfoldable pub http_main_entry : Centers x → Centers x × (List (Happening Conn) × Status)
    unfolding listen
    http_main_entry centers = (
      record centers { http_center = init_center x host.open_file config centers.http_center },
      listen config.listen_addr (λ conn. http_service conn config),
    )

    unfoldable pub socks5_main_entry : Centers x → Centers x × (List (Happening Conn) × Status)
    unfolding listen
    socks5_main_entry centers = (
      record centers { socks5_center = init_center x host.open_file config centers.socks5_center },
      listen config.listen_addr (λ conn.
          socks5_service conn (choose_auth config) config.server_addr
            (user_key (get_s5_credentials config))),
    )

    unfoldable pub main_entry : Centers x → Centers x × (List (Happening Conn) × Status)
    unfolding http_main_entry socks5_main_entry
    main_entry centers = elim config.source_type [
      | http ↦ http_main_entry centers
      | socks5 ↦ socks5_main_entry centers
    ]

    -- What a server may do under its configuration.
    abbrev pub IsConfigured : Happening Conn → Type 0
    IsConfigured (announce addr) =
        (host.announces ≡ true) × (host.bind config.listen_addr ≡ ok (ok addr))
    IsConfigured (http_service conn c) = (config.source_type ≡ http) × (c ≡ config)
    IsConfigured (socks5_service conn auth server key) =
        (config.source_type ≡ socks5)
        × (auth ≡ choose_auth config)
        × (server ≡ config.server_addr)
        × (key ≡ user_key (get_s5_credentials config))

    map-IsConfigured :
        (task : Conn → Happening Conn)
        → ((conn : Conn) → IsConfigured (task conn))
        → (conns : List Conn) → All IsConfigured (map task conns)
    map-IsConfigured task h [] = tt
    map-IsConfigured task h (c ∷ conns) = (h c, map-IsConfigured task h conns)

    listen-IsConfigured :
        (task : Conn → Happening Conn)
        → ((conn : Conn) → IsConfigured (task conn))
        → All IsConfigured (listen config.listen_addr task).0
    unfolding listen
    listen-IsConfigured task h =
        let each = map-IsConfigured task h (accept_loop host.events).0 in ground arith

    starts_http :
        (centers : Centers x)
        → config.source_type ≡ http
        → main_entry centers ≡ http_main_entry centers
    unfolding main_entry
    starts_http centers e = rw e refl

    starts_socks5 :
        (centers : Centers x)
        → config.source_type ≡ socks5
        → main_entry centers ≡ socks5_main_entry centers
    unfolding main_entry
    starts_socks5 centers e = rw e refl

    -- A server announces only the address that it is bound to, and only to a host that asks; it
    -- serves each connection by the protocol, the credentials and the SOCKS5 server of its
    -- configuration; and the access control list of the other kind of server stays as it was.
    pub main_entry-IsConfigured :
        (centers : Centers x)
        → All IsConfigured (main_entry centers).1.0
          × (other config.source_type (main_entry centers).0 ≡ other config.source_type centers)
    unfolding http_main_entry socks5_main_entry
    main_entry-IsConfigured centers = go config.source_type refl
      where
        go :
            (t : ProxyType)
            → config.source_type ≡ t
            → All IsConfigured (main_entry centers).1.0
              × (other config.source_type (main_entry centers).0 ≡ other config.source_type centers)
        go http e = (
          rw (starts_http centers e)
              (listen-IsConfigured (λ conn. http_service conn config) (λ conn. (e, refl))),
          ap (λ t. other t (main_entry centers).0) e
              ∙ ap (λ r. r.0.socks5_center) (starts_http centers e)
              ∙ ap (λ t. other t centers) (sym e),
        )
        go socks5 e = (
          rw (starts_socks5 centers e) (
              listen-IsConfigured
                (λ conn.
                  socks5_service conn (choose_auth config) config.server_addr
                    (user_key (get_s5_credentials config)))
                (λ conn. (e, refl, refl, refl))),
          ap (λ t. other t (main_entry centers).0) e
              ∙ ap (λ r. r.0.http_center) (starts_socks5 centers e)
              ∙ ap (λ t. other t centers) (sym e),
        )
