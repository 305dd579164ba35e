-- ===== src/Socks2Socks/Udp.antt =====
-- `handle_s5_upd_associate` of src/socks2socks.rs: the relay of one UDP association. The sockets
-- are the events that `tokio::select!` reports, one for each round of the loop.
pub mod Association
pub mod Datagrams
pub mod Relay
use socks_hub.Prelude.{
  ℕ, ◌-◌, Bool, true, false, not, List, [], ◌∷◌, ◌++◌, Option, none, some, ◌==◌, if◌then◌else◌,
}
use socks_hub.Text.{Text, codes}
use socks_hub.Io.{Error, ErrorKind, other, Result, ok, err}
use socks_hub.Net.{SocketAddr, Address}

-- `MAX_UDP_RELAY_PACKET_SIZE`
abbrev pub max_udp_relay_packet_size : ℕ
max_udp_relay_packet_size = 1500

-- A datagram that `listen_udp.recv_from` gives: payload, fragment number, target, sender.
pub record Incoming : Type 0 where
  pub pkt : List ℕ
  pub frag : ℕ
  pub dst_addr : Address
  pub src_addr : SocketAddr

-- A round of the loop. A branch runs until its first wait that another branch overtakes, so a
-- datagram may have been received without being sent on; the `lost` events are those rounds, of
-- which only the sender's address can remain.
pub data UdpEvent : Type 0 where
  -- the first branch: receiving, and sending to the server
  from_client : Result Incoming → Result (Unit {0}) → UdpEvent
  -- the first branch, overtaken while it sends
  lost_from_client : Incoming → UdpEvent
  -- the second branch: receiving within the timeout, and sending to the client
  from_server : Result (List ℕ × Address) → Result (Unit {0}) → UdpEvent
  -- the third branch: the client's TCP connection is closed
  closed : UdpEvent

pub data UdpAction : Type 0 where
  to_server : List ℕ → Address → UdpAction
  to_client : List ℕ → Address → SocketAddr → UdpAction

-- What a round leaves: the address in the `OnceLock`, or the result that ends the loop.
pub data Round : Type 0 where
  next : Option SocketAddr → Round
  break : Result (Unit {0}) → Round

-- `incoming_addr.get_or_init(|| src_addr)`
abbrev pub get_or_init : Option SocketAddr → SocketAddr → Option SocketAddr
get_or_init none src = some src
get_or_init (some addr) src = some addr

-- An error of a branch ends the loop with it.
abbrev pub after_send : Option SocketAddr → Result (Unit {0}) → Round
after_send incoming (ok done) = next incoming
after_send incoming (err e) = break (err e)

abbrev pub boxed : Text → Error
boxed message = record { kind = other; message = message }

abbrev pub fragmented : Error
fragmented = boxed (codes "[UDP] packet fragment is not supported")

abbrev pub not_set : Error
not_set = boxed (codes "incoming address not set")

unfoldable pub round : Option SocketAddr → UdpEvent → List UdpAction × Round
round incoming (from_client (err e) sent) = ([], break (err e))
round incoming (from_client (ok d) sent) =
    if not (d.frag == 0)
    then ([], break (err fragmented))
    else (to_server d.pkt d.dst_addr ∷ [], after_send (get_or_init incoming d.src_addr) sent)
round incoming (lost_from_client d) =
    if not (d.frag == 0)
    then ([], break (err fragmented))
    else ([], next (get_or_init incoming d.src_addr))
round incoming (from_server (err e) sent) = ([], break (err e))
round none (from_server (ok (pkt, remote)) sent) = ([], break (err not_set))
round (some addr) (from_server (ok (pkt, remote)) sent) =
    (to_client pkt remote addr ∷ [], after_send (some addr) sent)
round incoming closed = ([], break (ok tt))

-- What the relay has sent, and its result; `none` while it runs.
abbrev pub Outcome : Type 0
Outcome = List UdpAction × Option (Result (Unit {0}))

-- After a round: stop, or go on with the address.
abbrev pub after_round : List UdpAction → Round → (Option SocketAddr → Outcome) → Outcome
after_round acts (break result) go_on = (acts, some result)
after_round acts (next incoming) go_on = (acts ++ (go_on incoming).0, (go_on incoming).1)

-- The loop.
unfoldable pub relay : Option SocketAddr → List UdpEvent → Outcome
unfolding round
relay incoming [] = ([], none)
relay incoming (e ∷ events) =
    let (acts, r) = round incoming e in after_round acts r (λ incoming'. relay incoming' events)
