-- ===== src/Socks2Socks/Udp/Relay.antt =====
-- Whom a UDP association answers, and that it ends for good.
use socks_hub.Prelude.{
  or_else, ◌≡◌, refl, List, [], ◌∷◌, ◌++◌, Option, none, some, ◌==◌, if◌then◌else◌, arith, All,
  All-append,
}
use socks_hub.Io.{Result, ok, err}
use socks_hub.Net.{SocketAddr}
use socks_hub.Socks2Socks.Udp.{
  UdpEvent, from_client, lost_from_client, from_server, closed, UdpAction, to_server, to_client,
  Round, next, break, round, Outcome, after_round, relay,
}

-- The sender of an unfragmented datagram, if the event is one of a client.
abbrev pub source : UdpEvent → Option SocketAddr
source (from_client (ok d) sent) = if d.frag == 0 then some d.src_addr else none
source (lost_from_client d) = if d.frag == 0 then some d.src_addr else none
source _ = none

-- The first client that sends.
abbrev pub first_source : List UdpEvent → Option SocketAddr
first_source [] = none
first_source (e ∷ events) = or_else (source e) (first_source events)

-- What goes to a client goes to this one.
abbrev pub IsFor : Option SocketAddr → UdpAction → Type 0
IsFor client (to_server pkt dst) = Unit
IsFor client (to_client pkt remote addr) = client ≡ some addr

round-IsFor :
    (incoming : Option SocketAddr) (e : UdpEvent) (o : Option SocketAddr)
    → All (IsFor (or_else incoming o)) (round incoming e).0
unfolding round
round-IsFor none (from_client (ok d) sent) o = ground arith
round-IsFor (some a) (from_client (ok d) sent) o = ground arith
round-IsFor none (from_client (err d) sent) o = tt
round-IsFor (some a) (from_client (err d) sent) o = tt
round-IsFor none (lost_from_client d) o = ground arith
round-IsFor (some a) (lost_from_client d) o = ground arith
round-IsFor none (from_server (ok (p, r)) sent) o = tt
round-IsFor (some a) (from_server (ok (p, r)) sent) o = (refl, tt)
round-IsFor none (from_server (err e) sent) o = tt
round-IsFor (some a) (from_server (err e) sent) o = tt
round-IsFor none closed o = tt
round-IsFor (some a) closed o = tt

round-next :
    (incoming i : Option SocketAddr) (e : UdpEvent)
    → (round incoming e).1 ≡ next i
    → i ≡ or_else incoming (source e)
unfolding round
round-next incoming i (from_client (ok d) sent) h = ground arith
round-next incoming i (from_client (err d) sent) h = ground arith
round-next incoming i (lost_from_client d) h = ground arith
round-next none i (from_server (ok (p, r)) sent) h = ground arith
round-next (some a) i (from_server (ok (p, r)) sent) h = ground arith
round-next incoming i (from_server (err e) sent) h = ground arith
round-next incoming i closed h = ground arith

or_else_assoc : (a b c : Option SocketAddr) → or_else (or_else a b) c ≡ or_else a (or_else b c)
or_else_assoc none b c = refl
or_else_assoc (some a) b c = refl

pub after_round-All :
    (P : UdpAction → Type 0) (acts : List UdpAction) (r : Round)
    (go_on : Option SocketAddr → Outcome)
    → All P acts
    → ((i : Option SocketAddr) → r ≡ next i → All P (go_on i).0)
    → All P (after_round acts r go_on).0
after_round-All P acts (break result) go_on h k = h
after_round-All P acts (next i) go_on h k = All-append P acts (go_on i).0 h (k i refl)

relay-IsFor :
    (incoming : Option SocketAddr) (events : List UdpEvent)
    → All (IsFor (or_else incoming (first_source events))) (relay incoming events).0
unfolding relay
relay-IsFor incoming [] = tt
relay-IsFor incoming (e ∷ events) =
    after_round-All (IsFor (or_else incoming (first_source (e ∷ events)))) (round incoming e).0
      (round incoming e).1 (λ i. relay i events)
      (round-IsFor incoming e (first_source (e ∷ events)))
      (λ i h.
        rw (round-next incoming i e h, ← or_else_assoc incoming (source e) (first_source events))
          (relay-IsFor (or_else incoming (source e)) events))

-- Whatever the sockets report, a datagram that comes back from the SOCKS5 server goes to the client
-- that sent the first unfragmented datagram of the association, and to no other.
pub relay-answers_first :
    (events : List UdpEvent) → All (IsFor (first_source events)) (relay none events).0
relay-answers_first events = relay-IsFor none events

after_round-ends :
    (acts : List UdpAction) (r : Round) (go_on longer : Option SocketAddr → Outcome)
    (result : Result (Unit {0}))
    → (after_round acts r go_on).1 ≡ some result
    → ((i : Option SocketAddr) → (go_on i).1 ≡ some result → longer i ≡ go_on i)
    → after_round acts r longer ≡ after_round acts r go_on
after_round-ends acts (break end) go_on longer result h k = refl
after_round-ends acts (next i) go_on longer result h k = rw (k i h) refl

-- A relay that has ended does nothing more, whatever its sockets would still report.
relay-ends :
    (incoming : Option SocketAddr) (events more : List UdpEvent) (result : Result (Unit {0}))
    → (relay incoming events).1 ≡ some result
    → relay incoming (events ++ more) ≡ relay incoming events
unfolding relay
relay-ends incoming [] more result h = ground arith
relay-ends incoming (e ∷ events) more result h =
    after_round-ends (round incoming e).0 (round incoming e).1 (λ i. relay i events)
      (λ i. relay i (events ++ more)) result h (λ i k. relay-ends i events more result k)
