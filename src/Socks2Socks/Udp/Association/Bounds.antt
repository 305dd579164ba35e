-- ===== src/Socks2Socks/Udp/Association/Bounds.antt =====
-- How long the datagrams are that a UDP association passes on.
use socks_hub.Prelude.{map, arith, All, All-append, All-map, All-every, Option, none, some}
use socks_hub.Io.{Error, Result}
use socks_hub.Net.{SocketAddr}
use socks_hub.Credentials.{UserKey}
use socks_hub.Socks2Socks.Udp.{relay, Outcome}
use socks_hub.Socks2Socks.Udp.Datagrams.{SocketsLaws, IsWithin, receive-HoldsWithin, relay-IsWithin}
use socks_hub.Socks2Socks.Udp.Association.{
  Associate, events, Step, relayed, close, after_relay, serve_association, refuse_association,
  handle_s5_upd_associate,
}

module _ (a : Associate) (server : SocketAddr) (s5_auth : Option UserKey) where
  abbrev pub IsStepWithin : Step → Type 0
  IsStepWithin (relayed act) = IsWithin a.sockets act
  IsStepWithin _ = Unit

  close-IsStepWithin :
      (listener : a.Listener) (res : Result (Unit {0}))
      → All IsStepWithin (close a server s5_auth listener res).0
  close-IsStepWithin listener res = ground arith

  after_relay-IsStepWithin :
      (listener : a.Listener) (o : Outcome)
      → All IsStepWithin (map relayed o.0)
      → All IsStepWithin (after_relay a server s5_auth listener o).0
  after_relay-IsStepWithin listener (acts, none) h = h
  after_relay-IsStepWithin listener (acts, some res) h =
      All-append IsStepWithin (map relayed acts) _ h (close-IsStepWithin listener res)

  module _ (laws : SocketsLaws a.sockets) where
    runs :
        (listener : a.Listener)
        → All IsStepWithin (after_relay a server s5_auth listener (relay none (events a))).0
    runs listener = after_relay-IsStepWithin listener (relay none (events a)) (
        All-map IsStepWithin relayed (relay none (events a)).0 (
          relay-IsWithin a.sockets none (events a)
            (All-map _ _ a.arrivals (All-every (receive-HoldsWithin a.sockets laws) a.arrivals))))

    serve_association-IsStepWithin :
        (listen_addr : SocketAddr)
        → All IsStepWithin (serve_association a server s5_auth listen_addr).0
    unfolding serve_association
    serve_association-IsStepWithin listen_addr = grind (arith, runs)

    refuse_association-IsStepWithin :
        (failure : Error) → All IsStepWithin (refuse_association a server s5_auth failure).0
    unfolding refuse_association
    refuse_association-IsStepWithin failure = grind (arith, close-IsStepWithin)

    -- Over sockets that keep to the packet size, or the buffer, that they are given, and for
    -- headers that are no longer than a packet, each datagram that an association sends to the
    -- SOCKS5 server fits a relay packet of 1500 bytes together with the longest header, and each
    -- that it sends to the client has at most 1500 bytes, however long the datagrams are that
    -- arrive.
    pub handle_s5_upd_associate-IsWithin :
        All IsStepWithin (handle_s5_upd_associate a server s5_auth).0
    unfolding handle_s5_upd_associate
    handle_s5_upd_associate-IsWithin =
        grind (arith, serve_association-IsStepWithin, refuse_association-IsStepWithin)
