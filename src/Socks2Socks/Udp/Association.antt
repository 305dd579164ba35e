-- ===== src/Socks2Socks/Udp/Association.antt =====
-- `handle_s5_upd_associate` of src/socks2socks.rs as a whole: the sockets are made, the client is
-- answered, the relay runs, and the client's connection is shut down.
pub mod Bounds
pub mod Safety
use socks_hub.Prelude.{
  ℕ, ◌≡◌, refl, ◌⊎◌, inl, inr, List, [], ◌∷◌, ◌++◌, map, Option, none, some, arith, All, Any, here,
  there,
}
use socks_hub.Io.{Error, Result, ok, err}
use socks_hub.Net.{IpAddr, SocketAddr, Address, socket_address}
use socks_hub.Credentials.{UserKey}
use socks_hub.Socks2Socks.Client.{Reply, succeeded, general_failure}
use socks_hub.Socks2Socks.Udp.Datagrams.{Sockets, Arrival, receive}
use socks_hub.Socks2Socks.Udp.{
  UdpEvent, closed, UdpAction, relay, round, from_client, from_server, lost_from_client, Round,
  next, break, after_round, Outcome,
}

-- What the client's request and the sockets answer, and what happens while the relay runs.
-- `bind_udp` is `UdpSocket::bind`, with the address that the socket then has.
pub record Associate : Type 1 where
  pub Listener : Type 0
  pub local_addr : Result SocketAddr
  pub bind_udp : SocketAddr → Result SocketAddr
  pub reply : Reply → Address → Result Listener
  pub shutdown : Listener → Result (Unit {0})
  pub create_udp_client : SocketAddr → Option UserKey → Result (Unit {0})
  pub unspecified : Address
  pub sockets : Sockets
  pub arrivals : List Arrival

-- What the rounds of the loop receive.
abbrev pub events : Associate → List UdpEvent
events a = map (receive a.sockets) a.arrivals

pub data Step : Type 0 where
  bound : SocketAddr → Step
  replied : Reply → Address → Step
  made_client : SocketAddr → Option UserKey → Step
  relayed : UdpAction → Step
  shut_down : Step

-- The steps, and the result; `none` while the relay runs.
abbrev pub Progress : Type 0
Progress = List Step × Option (Result (Unit {0}))

abbrev fails : Error → Progress
fails e = ([], some (err e))

abbrev before : Step → Progress → Progress
before step (steps, result) = (step ∷ steps, result)

module _ (a : Associate) (server : SocketAddr) (s5_auth : Option UserKey) where
  -- `reply_listener.shutdown().await?; res`
  abbrev close : a.Listener → Result (Unit {0}) → Progress
  close listener res = elim (a.shutdown listener) [
    | ok done ↦ (shut_down ∷ [], some res)
    | err e ↦ (shut_down ∷ [], some (err e))
  ]

  abbrev after_relay : a.Listener → Outcome → Progress
  after_relay listener (acts, none) = (map relayed acts, none)
  after_relay listener (acts, some res) =
      let (steps, result) = close listener res in (map relayed acts ++ steps, result)

  -- From the success reply on.
  unfoldable pub serve_association : SocketAddr → Progress
  unfolding relay
  serve_association listen_addr =
      before (replied succeeded (socket_address listen_addr))
        (elim (a.reply succeeded (socket_address listen_addr)) [
          | err e ↦ fails e
          | ok listener ↦
              before (made_client server s5_auth) (elim (a.create_udp_client server s5_auth) [
                | err e ↦ fails e
                | ok done ↦ after_relay listener (relay none (events a))
              ])
        ])

  -- The socket could not be made.
  unfoldable pub refuse_association : Error → Progress
  refuse_association failure =
      before (replied general_failure a.unspecified) (elim (a.reply general_failure a.unspecified) [
        | err e ↦ fails e
        | ok listener ↦ close listener (err failure)
      ])

  unfoldable pub handle_s5_upd_associate : Progress
  unfolding serve_association refuse_association
  handle_s5_upd_associate = elim a.local_addr [
    | err e ↦ fails e
    | ok local ↦
        let any_port : SocketAddr = record { ip = local.ip; port = 0 } in
        before (bound any_port) (elim (a.bind_udp any_port) [
          | err e ↦ refuse_association e
          | ok listen_addr ↦ serve_association listen_addr
        ])
  ]
