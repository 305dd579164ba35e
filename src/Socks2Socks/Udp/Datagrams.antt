-- ===== src/Socks2Socks/Udp/Datagrams.antt =====
-- The buffers of `handle_s5_upd_associate` of src/socks2socks.rs: what its two sockets make of a
-- datagram of any length.
use socks_hub.Prelude.{
  ℕ, suc, ◌+◌, ◌-◌, ◌≤◌, ◌≡◌, refl, List, [], ◌∷◌, Option, none, some, length, take, length-take_le,
  arith, All, zero,
}
use socks_hub.Io.{Result, ok, err}
use socks_hub.Net.{SocketAddr, Address}
use socks_hub.Socks2Socks.Udp.{
  max_udp_relay_packet_size, Incoming, UdpEvent, from_client, lost_from_client, from_server, closed,
  UdpAction, to_server, to_client, round, relay,
}
use socks_hub.Socks2Socks.Udp.Relay.{after_round-All}

-- What `recv_from` of the client of socks5-impl gives: the length of the payload, the buffer with
-- the payload in front, and where it comes from.
pub record Filled : Type 0 where
  pub len : ℕ
  pub buf : List ℕ
  pub remote_addr : Address

-- The sockets of socks5-impl: the length of the longest header, what a listening socket with a
-- maximal packet size makes of a datagram, and what the client makes of one with its buffer.
pub record Sockets : Type 0 where
  pub max_serialized_len : ℕ
  pub recv_from : ℕ → List ℕ → Result Incoming
  pub client_recv_from : List ℕ → List ℕ → Result Filled

-- The headers are shorter than a packet; what is received fits the packet size that is set, or the
-- buffer that is given, which keeps its length.
pub record SocketsLaws (s : Sockets) : Type 0 where
  pub header_fits : s.max_serialized_len ≤ max_udp_relay_packet_size
  pub recv_from-fits :
      (size : ℕ) (datagram : List ℕ) (d : Incoming)
      → s.recv_from size datagram ≡ ok d
      → length d.pkt ≤ size
  pub client_recv_from-fits :
      (buf datagram : List ℕ) (f : Filled)
      → s.client_recv_from buf datagram ≡ ok f
      → (f.len ≤ length buf) × (length f.buf ≡ length buf)

-- A datagram reaches a socket, or an error does: from the client, with the result of sending it on,
-- or overtaken by another branch before that; from the server, within the timeout; or the client's
-- connection is closed.
pub data Arrival : Type 0 where
  at_listener : Result (List ℕ) → Result (Unit {0}) → Arrival
  at_listener_lost : List ℕ → Arrival
  at_client : Result (List ℕ) → Result (Unit {0}) → Arrival
  hung_up : Arrival

abbrev zeros : ℕ → List ℕ
zeros zero = []
zeros (suc n) = 0 ∷ zeros n

module _ (s : Sockets) where
  -- `MAX_UDP_RELAY_PACKET_SIZE - UdpHeader::max_serialized_len()`
  abbrev pub buf_size : ℕ
  buf_size = max_udp_relay_packet_size - s.max_serialized_len

  -- `&buf[..len]`
  abbrev filled : Result Filled → Result (List ℕ × Address)
  filled (ok f) = ok (take f.len f.buf, f.remote_addr)
  filled (err e) = err e

  abbrev overtaken : Result Incoming → UdpEvent
  overtaken (ok d) = lost_from_client d
  overtaken (err e) = from_client (err e) (ok tt)

  -- The receiving half of a branch.
  unfoldable pub receive : Arrival → UdpEvent
  receive (at_listener (ok datagram) sent) = from_client (s.recv_from buf_size datagram) sent
  receive (at_listener (err e) sent) = from_client (err e) sent
  receive (at_listener_lost datagram) = overtaken (s.recv_from buf_size datagram)
  receive (at_client (ok datagram) sent) =
      from_server (filled (s.client_recv_from (zeros max_udp_relay_packet_size) datagram)) sent
  receive (at_client (err e) sent) = from_server (err e) sent
  receive hung_up = closed

  -- What goes to the server leaves room for a header in a packet; what goes to the client has been
  -- in a packet itself.
  abbrev pub IsWithin : UdpAction → Type 0
  IsWithin (to_server pkt dst) = length pkt + s.max_serialized_len ≤ max_udp_relay_packet_size
  IsWithin (to_client pkt remote addr) = length pkt ≤ max_udp_relay_packet_size

  abbrev HoldsWithin : UdpEvent → Type 0
  HoldsWithin (from_client (ok d) sent) =
      length d.pkt + s.max_serialized_len ≤ max_udp_relay_packet_size
  HoldsWithin (from_server (ok (pkt, remote)) sent) = length pkt ≤ max_udp_relay_packet_size
  HoldsWithin _ = Unit

  round-IsWithin :
      (incoming : Option SocketAddr) (e : UdpEvent)
      → HoldsWithin e
      → All IsWithin (round incoming e).0
  unfolding round
  round-IsWithin incoming (from_client (ok d) sent) h = ground arith
  round-IsWithin incoming (from_client (err e) sent) h = tt
  round-IsWithin incoming (lost_from_client d) h = ground arith
  round-IsWithin none (from_server (ok (pkt, remote)) sent) h = tt
  round-IsWithin (some addr) (from_server (ok (pkt, remote)) sent) h = (h, tt)
  round-IsWithin none (from_server (err e) sent) h = tt
  round-IsWithin (some addr) (from_server (err e) sent) h = tt
  round-IsWithin none closed h = tt
  round-IsWithin (some addr) closed h = tt

  pub relay-IsWithin :
      (incoming : Option SocketAddr) (events : List UdpEvent)
      → All HoldsWithin events
      → All IsWithin (relay incoming events).0
  unfolding relay
  relay-IsWithin incoming [] h = tt
  relay-IsWithin incoming (e ∷ events) h =
      after_round-All IsWithin (round incoming e).0 (round incoming e).1 (λ i. relay i events)
        (round-IsWithin incoming e h.0) (λ i _. relay-IsWithin i events h.1)

  module _ (laws : SocketsLaws s) where
    length-zeros : (n : ℕ) → length (zeros n) ≡ n
    length-zeros zero = refl
    length-zeros (suc n) = omega (arith, length-zeros n)

    pub receive-HoldsWithin : (a : Arrival) → HoldsWithin (receive a)
    unfolding receive
    receive-HoldsWithin (at_listener (ok datagram) sent) = go (s.recv_from buf_size datagram) refl
      where
        go :
            (r : Result Incoming)
            → s.recv_from buf_size datagram ≡ r
            → HoldsWithin (from_client r sent)
        go (ok d) e =
            let fits = laws.recv_from-fits buf_size datagram d e in omega (arith, laws.header_fits)
        go (err e) p = tt
    receive-HoldsWithin (at_listener (err e) sent) = tt
    receive-HoldsWithin (at_listener_lost datagram) = go (s.recv_from buf_size datagram)
      where
        go : (r : Result Incoming) → HoldsWithin (overtaken r)
        go (ok d) = tt
        go (err e) = tt
    receive-HoldsWithin (at_client (ok datagram) sent) =
        go (s.client_recv_from (zeros max_udp_relay_packet_size) datagram) refl
      where
        go :
            (r : Result Filled)
            → s.client_recv_from (zeros max_udp_relay_packet_size) datagram ≡ r
            → HoldsWithin (from_server (filled r) sent)
        go (ok f) e =
            let fits = laws.client_recv_from-fits (zeros max_udp_relay_packet_size) datagram f e in
            omega (arith, length-zeros max_udp_relay_packet_size, length-take_le f.len f.buf)
        go (err e) p = tt
    receive-HoldsWithin (at_client (err e) sent) = tt
    receive-HoldsWithin hung_up = tt
