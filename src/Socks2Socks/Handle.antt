-- ===== src/Socks2Socks/Handle.antt =====
-- `handle` and `handle_s5_client_connection` of src/socks2socks.rs, with the ACL feature enabled.
pub mod Safety
pub mod Liveness
pub mod Stages
pub mod Session
use socks_hub.Prelude.{ℕ, Bool, true, false, not, Option, none, some, List, [], ◌∷◌, if◌then◌else◌}
use socks_hub.Text.{Text, codes}
use socks_hub.Io.{Error, Result, ok, err}
use socks_hub.Net.{SocketAddr, Address}
use socks_hub.Credentials.{UserKey}
use socks_hub.Acl.Externals.{Externals}
use socks_hub.Acl.Center.{Center, must_proxied}
use socks_hub.Effects.{Run, pure, raise, act, ◌>>=◌, ◌>>◌}
use socks_hub.Network.{
  Network, dial_addr, copy, connect_timeout_secs, create_s5_connect, first_address,
}
use socks_hub.Socks2Socks.Client.{
  Client, AuthOutput, no_verdict, verdict, ClientRequest, udp_associate, bind, connect, succeeded,
  command_not_supported, ClientAction, net, do_authenticate, do_wait_request, send_reply,
  do_shutdown, start_udp,
}

module _ {n : Network} {x : Externals} (center : Center x) (client : Client n) where
  abbrev Handler : Type 0 → Type 0
  Handler A = Run (ClientAction n) A

  -- `log::trace!("{} -> {}", conn.peer_addr()?, dst)`
  pub trace_peer : n.Stream → Handler (Unit {0})
  trace_peer conn = elim (client.peer_addr conn) [
    | err e ↦ if client.tracing then raise e else pure tt
    | ok addr ↦ pure tt
  ]

  -- What follows the connection to the target or the server.
  answer_and_copy : n.Stream → Handler (Unit {0})
  unfolding trace_peer
  answer_and_copy stream = do
    conn ← act (send_reply succeeded client.unspecified) (client.reply succeeded client.unspecified)
    traced ← trace_peer conn
    act (net (copy stream conn)) (n.copy_bidirectional stream conn)

  unfoldable pub handle_s5_client_connection :
      Address → SocketAddr → Option UserKey → Handler (Unit {0})
  unfolding answer_and_copy create_s5_connect first_address
  handle_s5_client_connection dst server s5_auth =
      if not (must_proxied center (n.domain dst))
      then (do
        addr ← first_address net dst
        stream ← act (net (dial_addr addr)) (n.connect_addr addr)
        answer_and_copy stream)
      else (do
        stream ← create_s5_connect net server connect_timeout_secs dst s5_auth
        answer_and_copy stream)

  -- The reply to BIND.
  unfoldable pub refuse_bind : Handler (Unit {0})
  refuse_bind = do
    conn ←
        act (send_reply command_not_supported client.unspecified)
          (client.reply command_not_supported client.unspecified)
    act do_shutdown (client.shutdown conn)

  -- `run_udp` is `handle_s5_upd_associate`, which is modelled apart.
  abbrev serve_request :
      Result (Unit {0}) → SocketAddr → Option UserKey → ClientRequest → Handler (Unit {0})
  serve_request run_udp server s5_auth udp_associate = act start_udp run_udp
  serve_request run_udp server s5_auth bind = refuse_bind
  serve_request run_udp server s5_auth (connect dst) =
      handle_s5_client_connection dst server s5_auth

  -- The test of the authentication's output: go on, stop without an error, or fail.
  abbrev check_output : AuthOutput → Handler Bool
  check_output no_verdict = pure true
  check_output (verdict (ok b)) = pure b
  check_output (verdict (err e)) = raise e

  unfoldable pub handle : Result (Unit {0}) → SocketAddr → Option UserKey → Handler (Unit {0})
  unfolding handle_s5_client_connection refuse_bind
  handle run_udp server s5_auth = do
    res ← act do_authenticate client.authenticate
    passed ← check_output res
    if not passed then pure tt else do
      request ← act do_wait_request client.wait_request
      serve_request run_udp server s5_auth request
