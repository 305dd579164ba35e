-- ===== src/Socks2Socks/Handle/Liveness.antt =====
-- What a SOCKS5 client gets that is let in and whose target can be reached.
use socks_hub.Prelude.{Option, ◌≡◌, inl, inr, true, false, Bool, not, ◌||◌, arith}
use socks_hub.Io.{Result, ok, err}
use socks_hub.Net.{SocketAddr, Address}
use socks_hub.Credentials.{UserKey}
use socks_hub.Acl.Externals.{Externals}
use socks_hub.Acl.Center.{Center}
use socks_hub.Network.{Network, create_s5_connect, first_address}
use socks_hub.Socks2Socks.Client.{Client, connect, succeeded}
use socks_hub.Socks2Socks.Handle.{trace_peer, answer_and_copy, handle_s5_client_connection, handle}
use socks_hub.Socks2Socks.Handle.Safety.{IsReached, IsAuthenticated}

module _ {n : Network} {x : Externals} (center : Center x) (client : Client n)
    (run_udp : Result (Unit {0})) (server : SocketAddr) (s5_auth : Option UserKey) where
  -- Whether the connection can be traced, where it is.
  abbrev pub can_trace : n.Stream → Bool
  can_trace conn =
      not client.tracing || (elim (client.peer_addr conn) [ ok addr ↦ true | err e ↦ false ])

  answer_and_copy-result :
      (stream conn : n.Stream)
      → client.reply succeeded client.unspecified ≡ ok conn
      → can_trace conn ≡ true
      → (answer_and_copy center client stream).1 ≡ n.copy_bidirectional stream conn
  unfolding answer_and_copy trace_peer
  answer_and_copy-result stream conn replied traced = ground arith

  connection-result :
      (dst : Address) (stream conn : n.Stream)
      → IsReached center client run_udp server s5_auth dst stream
      → client.reply succeeded client.unspecified ≡ ok conn
      → can_trace conn ≡ true
      → (handle_s5_client_connection center client dst server s5_auth).1
        ≡ n.copy_bidirectional stream conn
  unfolding handle_s5_client_connection first_address create_s5_connect
  connection-result dst stream conn (inl (direct, (addr, rest, resolved, dialled))) replied traced =
      rw (direct, first_address, resolved, dialled)
        (answer_and_copy-result stream conn replied traced)
  connection-result dst stream conn (inr (on, dialled, granted)) replied traced =
      rw (on, create_s5_connect, dialled, granted)
        (answer_and_copy-result stream conn replied traced)

  -- A client that is let in and asks for a connection gets it, where the target can be reached by
  -- the way that the access control list prescribes, the client can be answered and, if connections
  -- are traced, its address is known: the outcome is that of copying between the two.
  pub handle-result :
      (dst : Address) (stream conn : n.Stream)
      → IsAuthenticated center client run_udp server s5_auth
      → client.wait_request ≡ ok (connect dst)
      → IsReached center client run_udp server s5_auth dst stream
      → client.reply succeeded client.unspecified ≡ ok conn
      → can_trace conn ≡ true
      → (handle center client run_udp server s5_auth).1 ≡ n.copy_bidirectional stream conn
  unfolding handle
  handle-result dst stream conn (inl passed) asked reached replied traced =
      rw (passed, asked) (connection-result dst stream conn reached replied traced)
  handle-result dst stream conn (inr passed) asked reached replied traced =
      rw (passed, asked) (connection-result dst stream conn reached replied traced)
