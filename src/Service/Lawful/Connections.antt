-- ===== src/Service/Lawful/Connections.antt =====
-- What is done for SOCKS5 clients and in their UDP associations is lawful.
use socks_hub.Prelude.{◌≡◌, refl, sym, ◌∙◌, ◌⊎◌, inl, inr, Bool, List, arith, All, All-imp}
use socks_hub.Text.{Text}
use socks_hub.Io.{Result, ok}
use socks_hub.Net.{Address}
use socks_hub.Credentials.{user_key}
use socks_hub.Config.{Config, socks5, get_s5_credentials}
use socks_hub.Acl.Externals.{Externals}
use socks_hub.Acl.Center.{Center, must_proxied}
use socks_hub.Network.{NetAction, dial_host, dial_addr, dial_timeout, socks_request, copy}
use socks_hub.Socks2Socks.Client
use socks_hub.Socks2Socks.Client.{
  Client, ClientAction, ClientRequest, connect, udp_associate, bind, no_verdict, verdict,
  do_authenticate, do_wait_request, send_reply, do_shutdown, start_udp,
}
use socks_hub.Socks2Socks.Server.{Auth, choose_auth}
use socks_hub.Socks2Socks.Handle.Safety.{IsForTarget, IsForRequest, IsPermitted}
use socks_hub.Service.{Host}
use socks_hub.Socks2Socks.Udp.Association.{handle_s5_upd_associate}
use socks_hub.Socks2Socks.Udp.Association.Safety.{handle_s5_upd_associate-IsAssociated}
use socks_hub.Service.Tasks.{Clients, for_client, in_association, associated}
use socks_hub.Service.Lawful.{is_named, IsLawfulCall, IsAskedFor, IsLawful}

module _ {Conn : Type 0} (clients : Clients Conn) (x : Externals) (host : Host Conn)
    (config : Config) (lines : List Text) where
  -- The ways to a target, by the file.
  module _ (center : Center x)
      (rules : (name : Text) → must_proxied center name ≡ is_named x config lines name) where
    proxied :
        (name : Text) (b : Bool) → must_proxied center name ≡ b → is_named x config lines name ≡ b
    proxied name b e = sym (rules name) ∙ e

    pub permitted-IsLawful :
        (conn : Conn) (run_udp : Result (Unit {0})) (a : ClientAction (clients.network conn))
        → config.source_type ≡ socks5
        → IsPermitted center
            (clients.client conn (choose_auth config))
            run_udp
            config.server_addr
            (user_key (get_s5_credentials config))
            a
        → IsLawful clients x host config lines (for_client conn (choose_auth config) a)
    permitted-IsLawful conn run_udp a kind (inl first) = (kind, refl, inl first)
    permitted-IsLawful conn run_udp a kind (inr (accepted, why)) =
        (kind, refl, inr (accepted, asked_for a why))
      where
        call :
            (dst : Address) (a : NetAction (clients.network conn))
            → IsForTarget center
                (clients.client conn (choose_auth config))
                run_udp
                config.server_addr
                (user_key (get_s5_credentials config))
                dst
                (Client.net a)
            → IsLawfulCall x config lines ((clients.network conn).domain dst) a
        call dst (dial_host h port) never = absurd never
        call dst (dial_addr addr) (direct, _) = proxied _ _ direct
        call dst (dial_timeout s secs) (on, same, _) = (proxied _ _ on, same)
        call dst (socks_request stream d auth) (on, _, same) = (proxied _ _ on, same)
        call dst (copy a b) h = tt

        asked_for :
            (a : ClientAction (clients.network conn))
            → ((a ≡ do_wait_request)
                ⊎ ((r : ClientRequest) × ((clients.client conn (choose_auth config)).wait_request
                      ≡ ok r)
                    × IsForRequest center
                        (clients.client conn (choose_auth config))
                        run_udp
                        config.server_addr
                        (user_key (get_s5_credentials config))
                        r
                        a))
            → IsAskedFor clients x host config lines conn (choose_auth config) a
        asked_for (Client.net a) (inl e) = ground arith
        asked_for (Client.net a) (inr (connect dst, asked, h)) = (dst, asked, call dst a h)
        asked_for (Client.net a) (inr (bind, asked, h)) = ground arith
        asked_for (Client.net a) (inr (udp_associate, asked, h)) = ground arith
        asked_for do_authenticate h = tt
        asked_for do_wait_request h = tt
        asked_for (send_reply r a) h = tt
        asked_for do_shutdown h = tt
        asked_for start_udp (inl e) = ground arith
        asked_for start_udp (inr (connect dst, asked, never)) = absurd never
        asked_for start_udp (inr (bind, asked, h)) = ground arith
        asked_for start_udp (inr (udp_associate, asked, h)) = asked

  -- The association of a client that asks for one.
  pub associated-IsLawful :
      (conn : Conn) (auth : Auth) (a : ClientAction (clients.network conn))
      → IsLawful clients x host config lines (for_client conn auth a)
      → All
          (λ step. IsLawful clients x host config lines (in_association conn auth step))
          (associated
            (handle_s5_upd_associate
              (clients.associate conn)
              config.server_addr
              (user_key (get_s5_credentials config))).0
            a)
  associated-IsLawful conn auth start_udp (kind, same, inl e) = ground arith
  associated-IsLawful conn auth start_udp (kind, same, inr (accepted, asked)) =
      All-imp _ (λ _ step h. (kind, same, accepted, asked, h))
        (handle_s5_upd_associate-IsAssociated (clients.associate conn) config.server_addr
          (user_key (get_s5_credentials config)))
  associated-IsLawful conn auth (Client.net a) h = tt
  associated-IsLawful conn auth do_authenticate h = tt
  associated-IsLawful conn auth do_wait_request h = tt
  associated-IsLawful conn auth (send_reply r a) h = tt
  associated-IsLawful conn auth do_shutdown h = tt
