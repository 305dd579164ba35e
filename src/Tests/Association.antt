-- ===== src/Tests/Association.antt =====
-- A UDP association on concrete sockets.
use socks_hub.Prelude.{
  ℕ, suc, ◌≤◌, ◌≡◌, refl, List, ◌∷◌, [], some, none, All, length, take, length-take_le, arith,
}
use socks_hub.Io.{Error, Result, ok, err, os}
use socks_hub.Net.{SocketAddr, v4, socket_address, domain_address}
use socks_hub.Socks2Socks.Client.{succeeded}
use socks_hub.Socks2Socks.Udp.{Incoming, relay, round, to_server, to_client}
use socks_hub.Socks2Socks.Udp.Datagrams.{
  Sockets, SocketsLaws, at_listener, at_client, hung_up, receive,
}
use socks_hub.Socks2Socks.Udp.Association.Bounds.{IsStepWithin, handle_s5_upd_associate-IsWithin}
use socks_hub.Socks2Socks.Udp.Association.{
  Associate, events, bound, replied, made_client, relayed, shut_down, serve_association,
  handle_s5_upd_associate,
}
use socks_hub.Socks2Socks.Udp.Association.Safety.{
  HasClosed, IsAssociated, handle_s5_upd_associate-IsAssociated, handle_s5_upd_associate-HasClosed,
}
use socks_hub.Tests.Toy.{server}
use socks_hub.Tests.Socks.{target, first}

abbrev bound_to : SocketAddr
bound_to = record { ip = v4 7; port = 6000 }

abbrev refused : Error
refused = record { kind = os; message = [] }

-- A datagram for the relay starts with the last number of its sender's address.
abbrev parsed : ℕ → List ℕ → Result Incoming
parsed size [] = err refused
parsed size (from ∷ payload) = ok (record {
  pkt = take size payload;
  frag = 0;
  dst_addr = target;
  src_addr = record { ip = v4 from; port = 5000 };
})

abbrev copied : List ℕ → List ℕ → ℕ
copied [] datagram = 0
copied (b ∷ buf) [] = 0
copied (b ∷ buf) (d ∷ datagram) = suc (copied buf datagram)

abbrev fill : List ℕ → List ℕ → List ℕ
fill [] datagram = []
fill (b ∷ buf) [] = b ∷ buf
fill (b ∷ buf) (d ∷ datagram) = d ∷ fill buf datagram

abbrev sockets : Sockets
sockets = record {
  max_serialized_len = 262;
  recv_from = parsed;
  client_recv_from = λ buf datagram.
      ok (record { len = copied buf datagram; buf = fill buf datagram; remote_addr = target });
}

copied_le : (buf datagram : List ℕ) → copied buf datagram ≤ length buf
copied_le [] datagram = omega arith
copied_le (b ∷ buf) [] = omega arith
copied_le (b ∷ buf) (d ∷ datagram) = omega (arith, copied_le buf datagram)

length-fill : (buf datagram : List ℕ) → length (fill buf datagram) ≡ length buf
length-fill [] datagram = refl
length-fill (b ∷ buf) [] = refl
length-fill (b ∷ buf) (d ∷ datagram) = omega (arith, length-fill buf datagram)

parsed-fits :
    (size : ℕ) (datagram : List ℕ) (d : Incoming)
    → parsed size datagram ≡ ok d
    → length d.pkt ≤ size
parsed-fits size [] d e = ground arith
parsed-fits size (from ∷ payload) d e = ground (arith, length-take_le size payload)

toy_laws : SocketsLaws sockets
toy_laws = record {
  header_fits = omega arith;
  recv_from-fits = parsed-fits;
  client_recv_from-fits =
      λ buf datagram f e. ground (arith, copied_le buf datagram, length-fill buf datagram);
}

abbrev pub associate : Associate
associate = record {
  Listener = ℕ;
  local_addr = ok server;
  bind_udp = λ addr. ok bound_to;
  reply = λ r addr. ok 1;
  shutdown = λ listener. ok tt;
  create_udp_client = λ addr key. ok tt;
  unspecified = domain_address [] 0;
  sockets = sockets;
  arrivals =
      at_listener (ok (1 ∷ 1 ∷ [])) (ok tt)
      ∷ at_listener (ok (2 ∷ 1 ∷ [])) (ok tt)
      ∷ at_client (ok (2 ∷ [])) (ok tt)
      ∷ hung_up
      ∷ [];
}

associated : handle_s5_upd_associate associate server none ≡ (
  bound (record { ip = v4 7; port = 0 })
      ∷ replied succeeded (socket_address bound_to)
      ∷ made_client server none
      ∷ relayed (to_server (1 ∷ []) target)
      ∷ relayed (to_server (1 ∷ []) target)
      ∷ relayed (to_client (2 ∷ []) target first)
      ∷ shut_down
      ∷ [],
  some (ok tt),
)
unfolding handle_s5_upd_associate serve_association relay round receive
associated = refl

ended : (handle_s5_upd_associate associate server none).1 ≡ some (ok tt)
unfolding handle_s5_upd_associate serve_association relay round receive
ended = refl

handle_s5_upd_associate-IsAssociated_example :
    All (IsAssociated associate server none) (handle_s5_upd_associate associate server none).0
handle_s5_upd_associate-IsAssociated_example =
    handle_s5_upd_associate-IsAssociated associate server none

handle_s5_upd_associate-HasClosed_example : HasClosed (events associate)
handle_s5_upd_associate-HasClosed_example =
    handle_s5_upd_associate-HasClosed associate server none ended

handle_s5_upd_associate-IsWithin_example :
    All (IsStepWithin associate server none) (handle_s5_upd_associate associate server none).0
handle_s5_upd_associate-IsWithin_example =
    handle_s5_upd_associate-IsWithin associate server none toy_laws
