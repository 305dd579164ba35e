-- ===== src/Socks2Socks/Udp/Association/Safety.antt =====
-- What a UDP association does, and when it ends well.
use socks_hub.Prelude.{
  ◌≡◌, refl, List, [], ◌∷◌, map, Option, none, some, arith, All, All-append, Any, here, there,
}
use socks_hub.Io.{Error, Result, ok, err}
use socks_hub.Net.{SocketAddr, socket_address}
use socks_hub.Credentials.{UserKey}
use socks_hub.Socks2Socks.Client.{succeeded, general_failure, command_not_supported}
use socks_hub.Socks2Socks.Udp.{
  UdpEvent, closed, UdpAction, relay, round, from_client, from_server, lost_from_client, Round,
  next, break, after_round, Outcome,
}
use socks_hub.Socks2Socks.Udp.Relay.{IsFor, first_source, relay-answers_first}
use socks_hub.Socks2Socks.Udp.Association.{
  Associate, events, Step, bound, replied, made_client, relayed, shut_down, Progress, before, fails,
  after_relay, close, serve_association, refuse_association, handle_s5_upd_associate,
}

-- The client closed its connection in one of the rounds.
abbrev pub HasClosed : List UdpEvent → Type 0
HasClosed es = Any (λ e. e ≡ closed) es

round-break :
    (incoming : Option SocketAddr) (e : UdpEvent)
    → (round incoming e).1 ≡ break (ok tt)
    → e ≡ closed
unfolding round
round-break incoming (from_client (ok d) sent) h = ground arith
round-break incoming (from_client (err d) sent) h = ground arith
round-break incoming (lost_from_client d) h = ground arith
round-break none (from_server (ok (p, r)) sent) h = ground arith
round-break (some a) (from_server (ok (p, r)) sent) h = ground arith
round-break incoming (from_server (err e) sent) h = ground arith
round-break incoming closed h = refl

relay-HasClosed :
    (incoming : Option SocketAddr) (es : List UdpEvent)
    → (relay incoming es).1 ≡ some (ok tt)
    → HasClosed es
unfolding relay
relay-HasClosed incoming [] h = ground arith
relay-HasClosed incoming (e ∷ es) h =
    go (round incoming e).0 (round incoming e).1 refl h (λ i. relay-HasClosed i es)
  where
    go :
        (acts : List UdpAction) (r : Round)
        → (round incoming e).1 ≡ r
        → (after_round acts r (λ i. relay i es)).1 ≡ some (ok tt)
        → ((i : Option SocketAddr) → (relay i es).1 ≡ some (ok tt) → HasClosed es)
        → HasClosed (e ∷ es)
    go acts (break (ok done)) p k later = here (round-break incoming e p)
    go acts (break (err failure)) p k later = ground arith
    go acts (next i) p k later = there (later i k)

module _ (a : Associate) (server : SocketAddr) (s5_auth : Option UserKey) where
  -- The socket has been bound to the address that the client reached, at a free port.
  abbrev pub IsBound : SocketAddr → Type 0
  IsBound listen_addr =
      (local : SocketAddr) × (a.local_addr ≡ ok local)
      × (a.bind_udp (record { ip = local.ip; port = 0 }) ≡ ok listen_addr)

  -- What may happen in an association.
  abbrev pub IsAssociated : Step → Type 0
  IsAssociated (bound addr) =
      (local : SocketAddr) × (a.local_addr ≡ ok local) × (addr ≡ record { ip = local.ip; port = 0 })
  IsAssociated (replied succeeded dst) =
      (addr : SocketAddr) × IsBound addr × (dst ≡ socket_address addr)
  IsAssociated (replied general_failure dst) =
      (local : SocketAddr) × (e : Error) × (a.local_addr ≡ ok local)
      × (a.bind_udp (record { ip = local.ip; port = 0 }) ≡ err e)
  IsAssociated (replied command_not_supported dst) = ⊥
  IsAssociated (made_client s key) = (s ≡ server) × (key ≡ s5_auth)
  IsAssociated (relayed act) =
      (a.create_udp_client server s5_auth ≡ ok tt) × IsFor (first_source (events a)) act
  IsAssociated shut_down = Unit

  relayed-IsAssociated :
      (acts : List UdpAction)
      → a.create_udp_client server s5_auth ≡ ok tt
      → All (IsFor (first_source (events a))) acts
      → All IsAssociated (map relayed acts)
  relayed-IsAssociated [] made h = tt
  relayed-IsAssociated (act ∷ acts) made h = ((made, h.0), relayed-IsAssociated acts made h.1)

  close-IsAssociated :
      (listener : a.Listener) (res : Result (Unit {0}))
      → All IsAssociated (close a server s5_auth listener res).0
  close-IsAssociated listener res = ground arith

  after_relay-IsAssociated :
      (listener : a.Listener) (o : Outcome)
      → All IsAssociated (map relayed o.0)
      → All IsAssociated (after_relay a server s5_auth listener o).0
  after_relay-IsAssociated listener (acts, none) h = h
  after_relay-IsAssociated listener (acts, some res) h =
      All-append IsAssociated (map relayed acts) _ h (close-IsAssociated listener res)

  runs :
      (listener : a.Listener)
      → a.create_udp_client server s5_auth ≡ ok tt
      → All IsAssociated (after_relay a server s5_auth listener (relay none (events a))).0
  runs listener made =
      after_relay-IsAssociated listener (relay none (events a))
        (relayed-IsAssociated (relay none (events a)).0 made (relay-answers_first (events a)))

  serve_association-IsAssociated :
      (listen_addr : SocketAddr)
      → IsBound listen_addr
      → All IsAssociated (serve_association a server s5_auth listen_addr).0
  unfolding serve_association
  serve_association-IsAssociated listen_addr h =
      ((listen_addr, h, refl), go (a.reply succeeded (socket_address listen_addr)) _ refl)
    where
      go :
          (r : Result a.Listener) (made : Result (Unit {0}))
          → a.create_udp_client server s5_auth ≡ made
          → All IsAssociated
              (elim r as (λ _. Progress) [
                | err e ↦ fails e
                | ok listener ↦ before (made_client server s5_auth) (elim made as (λ _. Progress) [
                  | err e ↦ fails e
                  | ok done ↦ after_relay a server s5_auth listener (relay none (events a))
                ])
              ]).0
      go (err e) made p = tt
      go (ok listener) (err e) p = ((refl, refl), tt)
      go (ok listener) (ok done) p = ((refl, refl), runs listener p)

  refuse_association-IsAssociated :
      (local : SocketAddr) (e : Error)
      → a.local_addr ≡ ok local
      → a.bind_udp (record { ip = local.ip; port = 0 }) ≡ err e
      → All IsAssociated (refuse_association a server s5_auth e).0
  unfolding refuse_association
  refuse_association-IsAssociated local e p q =
      ((local, e, p, q), go (a.reply general_failure a.unspecified))
    where
      go :
          (r : Result a.Listener)
          → All IsAssociated
              (elim r as (λ _. Progress) [
                | err e' ↦ fails e'
                | ok listener ↦ close a server s5_auth listener (err e)
              ]).0
      go (err e') = tt
      go (ok listener) = close-IsAssociated listener (err e)

  -- An association binds a UDP socket at the address that the client reached, reports success only
  -- for that socket and failure only where it could not be made, makes its client for the
  -- configured server, and relays only over that client, with answers only to the client that sent
  -- first.
  pub handle_s5_upd_associate-IsAssociated :
      All IsAssociated (handle_s5_upd_associate a server s5_auth).0
  unfolding handle_s5_upd_associate
  handle_s5_upd_associate-IsAssociated = go a.local_addr refl
    where
      with_local :
          (local : SocketAddr)
          → a.local_addr ≡ ok local
          → (b : Result SocketAddr) → a.bind_udp (record { ip = local.ip; port = 0 }) ≡ b
          → All IsAssociated
              (elim b as (λ _. Progress) [
                | err e ↦ refuse_association a server s5_auth e
                | ok listen_addr ↦ serve_association a server s5_auth listen_addr
              ]).0
      with_local local p (err e) q = refuse_association-IsAssociated local e p q
      with_local local p (ok listen_addr) q =
          serve_association-IsAssociated listen_addr (local, p, q)

      go :
          (r : Result SocketAddr)
          → a.local_addr ≡ r
          → All IsAssociated
              (elim r as (λ _. Progress) [
                | err e ↦ fails e
                | ok local ↦
                    let any_port : SocketAddr = record { ip = local.ip; port = 0 } in
                    before (bound any_port) (elim (a.bind_udp any_port) as (λ _. Progress) [
                      | err e ↦ refuse_association a server s5_auth e
                      | ok listen_addr ↦ serve_association a server s5_auth listen_addr
                    ])
              ]).0
      go (err e) p = tt
      go (ok local) p = ((local, p, refl), with_local local p (a.bind_udp _) refl)

  -- An association ends without an error only if the client closed its TCP connection.
  pub handle_s5_upd_associate-HasClosed :
      (handle_s5_upd_associate a server s5_auth).1 ≡ some (ok tt) → HasClosed (events a)
  unfolding handle_s5_upd_associate serve_association refuse_association
  handle_s5_upd_associate-HasClosed h = ground (arith, relay-HasClosed none (events a))
