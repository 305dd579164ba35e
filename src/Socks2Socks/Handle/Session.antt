-- ===== src/Socks2Socks/Handle/Session.antt =====
-- The order of what `handle` of src/socks2socks.rs does: a session of the protocol, as a type.
use socks_hub.Prelude.{true, false, not, ◌≤◌, Option, if◌then◌else◌, Bool-cases, inl, inr}
use socks_hub.Io.{Result, ok, err}
use socks_hub.Net.{SocketAddr, Address}
use socks_hub.Credentials.{UserKey}
use socks_hub.Acl.Externals.{Externals}
use socks_hub.Acl.Center.{Center, must_proxied}
use socks_hub.Effects.{pure, act, ◌>>=◌}
use socks_hub.Network.{
  Network, connect_timeout_secs, create_s5_connect, first_address, first_address-quiet,
}
use socks_hub.Network.Sessions.{create_s5_connect-Session}
use socks_hub.Effects.Sessions.{ends, goes, continue-Session, quiet-Session}
use socks_hub.Socks2Socks.Client.{
  Client, AuthOutput, no_verdict, verdict, ClientRequest, udp_associate, bind, connect, net,
  do_wait_request,
}
use socks_hub.Socks2Socks.Handle.Safety.{trace_peer-quiet}
use socks_hub.Socks2Socks.Handle.{
  trace_peer, answer_and_copy, handle_s5_client_connection, refuse_bind, serve_request,
  check_output, handle,
}
use socks_hub.Socks2Socks.Handle.Stages.{
  fresh, requested, dialled, connected, answered, refused, Served, Turn, over, after_output,
  authenticates, asks, associates, refuses, shuts_down, dials, dials_server, requests, answers,
  copies, replies, Session-replies,
}

module _ {n : Network} {x : Externals} (center : Center x) (client : Client n)
    (run_udp : Result (Unit {0})) (server : SocketAddr) (s5_auth : Option UserKey) where
  answer_and_copy-Session :
      (stream : n.Stream)
      → Served client (connected stream) (answer_and_copy center client stream).0
  unfolding answer_and_copy
  answer_and_copy-Session stream = goes (answers _) (
      continue-Session over (Turn client) _ (answered stream) _ (λ conn.
        quiet-Session over (Turn client) (answered stream conn) (trace_peer center client conn) _
          (trace_peer-quiet center client run_udp server s5_auth conn)
          (λ traced. goes copies ends)))

  connection-Session :
      (dst : Address)
      → Served client
          (requested (connect dst))
          (handle_s5_client_connection center client dst server s5_auth).0
  unfolding handle_s5_client_connection create_s5_connect
  connection-Session dst = elim (Bool-cases (must_proxied center (n.domain dst))) [
    | inr direct ↦ rw direct (
        quiet-Session over (Turn client) (requested (connect dst)) (first_address net dst) _
          (first_address-quiet {n = n} net dst)
          (λ addr.
            goes (dials addr)
              (continue-Session over (Turn client) _ connected _ answer_and_copy-Session)))
    | inl proxied ↦ rw proxied (
        create_s5_connect-Session net over (Turn client) (dialled dst) connected
          (requested (connect dst)) server connect_timeout_secs dst s5_auth
          (answer_and_copy center client) (dials_server server connect_timeout_secs)
          (λ stream. requests s5_auth) answer_and_copy-Session)
  ]

  serve_request-Session :
      (r : ClientRequest)
      → Served client (requested r) (serve_request center client run_udp server s5_auth r).0
  unfolding refuse_bind
  serve_request-Session udp_associate = goes associates ends
  serve_request-Session bind =
      goes (refuses _)
        (continue-Session over (Turn client) _ refused _ (λ conn. goes shuts_down ends))
  serve_request-Session (connect dst) = connection-Session dst

  handle-Turns : Served client fresh (handle center client run_udp server s5_auth).0
  unfolding handle
  handle-Turns =
      goes authenticates
        (continue-Session over (Turn client) client.authenticate (after_output client) _ passed)
    where
      passed :
          (out : AuthOutput)
          → Served client
              (after_output client out)
              (check_output center client out >>= λ passed.
                if not passed
                then pure tt
                else (act do_wait_request client.wait_request >>= λ request.
                    serve_request center client run_udp server s5_auth request)).0
      passed no_verdict =
          goes asks (continue-Session over (Turn client) _ requested _ serve_request-Session)
      passed (verdict (ok true)) =
          goes asks (continue-Session over (Turn client) _ requested _ serve_request-Session)
      passed (verdict (ok false)) = ends
      passed (verdict (err e)) = ends

  -- What is done for a client is a session: it is authenticated, then asked for its request, then
  -- served; the SOCKS5 server is asked for the requested target over the stream that dialling it
  -- gave; success is reported over a connection to the target, and bytes are copied between the
  -- stream of that connection and the client's after the report; an action that fails is the last
  -- one. Apart from a UDP association,
  -- at most one reply is sent.
  pub handle-Session :
      Served client fresh (handle center client run_udp server s5_auth).0
      × (replies (handle center client run_udp server s5_auth).0 ≤ 1)
  handle-Session = (handle-Turns, Session-replies client handle-Turns)
