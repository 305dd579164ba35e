-- ===== src/Socks2Socks/Handle/Stages.antt =====
-- A session of a SOCKS5 client as src/socks2socks.rs holds it: the stages, and the actions that
-- lead from one to the next.
use socks_hub.Prelude.{ℕ, true, false, List, [], ◌∷◌, ◌+◌, ◌≤◌, Option, arith}
use socks_hub.Io.{Result, ok, err}
use socks_hub.Net.{SocketAddr, Address}
use socks_hub.Credentials.{UserKey}
use socks_hub.Effects.Sessions.{on_success, Session, ends, goes}
use socks_hub.Network.{Network, dial_addr, dial_timeout, socks_request, copy}
use socks_hub.Socks2Socks.Client.{
  Client, AuthOutput, no_verdict, verdict, ClientRequest, udp_associate, bind, connect, succeeded,
  command_not_supported, ClientAction, net, do_authenticate, do_wait_request, send_reply,
  do_shutdown, start_udp,
}

-- How far a session has come: the client is new, it has passed its authentication, it has made its
-- request, the SOCKS5 server has been dialled, a stream leads to the target, the client has been
-- told so on its own stream, BIND has been refused, and nothing more is to be done.
pub data Stage (n : Network) : Type 0 where
  fresh authenticated : Stage n
  requested : ClientRequest → Stage n
  dialled : Address → n.Stream → Stage n
  connected : n.Stream → Stage n
  answered : n.Stream → n.Stream → Stage n
  refused : n.Stream → Stage n
  over : Stage n

module _ {n : Network} (client : Client n) where
  abbrev pub after_output : AuthOutput → Stage n
  after_output no_verdict = authenticated
  after_output (verdict (ok true)) = authenticated
  after_output (verdict (ok false)) = over
  after_output (verdict (err e)) = over

  -- One action at a stage, and the stage that its outcome leads to.
  pub data Turn : Stage n → ClientAction n → Stage n → Type 0 where
    authenticates : Turn fresh do_authenticate (on_success over client.authenticate after_output)
    asks : Turn authenticated do_wait_request (on_success over client.wait_request requested)
    associates : Turn (requested udp_associate) start_udp over
    refuses :
        (a : Address)
        → Turn
            (requested bind)
            (send_reply command_not_supported a)
            (on_success over (client.reply command_not_supported a) refused)
    shuts_down : {conn : n.Stream} → Turn (refused conn) do_shutdown over
    dials :
        {dst : Address} (addr : SocketAddr)
        → Turn
            (requested (connect dst))
            (net (dial_addr addr))
            (on_success over (n.connect_addr addr) connected)
    dials_server :
        {dst : Address} (server : SocketAddr) (secs : ℕ)
        → Turn
            (requested (connect dst))
            (net (dial_timeout server secs))
            (on_success over (n.connect_timeout server secs) (dialled dst))
    requests :
        {dst : Address} {stream : n.Stream} (auth : Option UserKey)
        → Turn
            (dialled dst stream)
            (net (socks_request stream dst auth))
            (on_success over (n.socks_connect stream dst auth) (λ done. connected stream))
    answers :
        {stream : n.Stream} (a : Address)
        → Turn
            (connected stream)
            (send_reply succeeded a)
            (on_success over (client.reply succeeded a) (answered stream))
    copies : {stream conn : n.Stream} → Turn (answered stream conn) (net (copy stream conn)) over

  -- The actions of a session from a stage on.
  abbrev pub Served : Stage n → List (ClientAction n) → Type 0
  Served = Session over Turn

-- The replies that the program sends, and how many may still follow.
abbrev pub replies : {n : Network} → List (ClientAction n) → ℕ
replies [] = 0
replies (send_reply r a ∷ acts) = 1 + replies acts
replies (do_authenticate ∷ acts) = replies acts
replies (do_wait_request ∷ acts) = replies acts
replies (do_shutdown ∷ acts) = replies acts
replies (start_udp ∷ acts) = replies acts
replies (net a ∷ acts) = replies acts

abbrev pub budget : {n : Network} → Stage n → ℕ
budget (answered stream conn) = 0
budget (refused conn) = 0
budget over = 0
budget _ = 1

module _ {n : Network} (client : Client n) where
  budget-on_success :
      {A : Type 0} (k : ℕ) (r : Result A) (stage : A → Stage n)
      → ((a : A) → budget (stage a) ≤ k)
      → budget (on_success over r stage) ≤ k
  budget-on_success k (ok a) stage h = h a
  budget-on_success k (err e) stage h = omega arith

  budget-le : (s : Stage n) → budget s ≤ 1
  budget-le s = ground arith

  pub Session-replies :
      {s : Stage n} {acts : List (ClientAction n)} → Served client s acts → replies acts ≤ budget s
  Session-replies ends = omega arith
  Session-replies (goes (refuses a) rest) = omega (
    arith,
    Session-replies rest,
    budget-on_success 0 (client.reply command_not_supported a) refused (λ conn. omega arith),
  )
  Session-replies (goes (answers {stream} a) rest) = omega (
    arith,
    Session-replies rest,
    budget-on_success 0 (client.reply succeeded a) (answered stream) (λ conn. omega arith),
  )
  Session-replies (goes {t} turn rest) = ground (arith, Session-replies rest, budget-le t)
