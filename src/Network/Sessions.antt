-- ===== src/Network/Sessions.antt =====
-- `create_s5_connect` of src/lib.rs as a part of a session.
use socks_hub.Prelude.{ℕ, ◌++◌, Option}
use socks_hub.Io.{Result, ok, err}
use socks_hub.Net.{SocketAddr, Address}
use socks_hub.Credentials.{UserKey}
use socks_hub.Effects.{Run, pure, act, ◌>>=◌, continue}
use socks_hub.Effects.Sessions.{on_success, Session, ends, goes}
use socks_hub.Network.{Network, NetAction, dial_timeout, socks_request, create_s5_connect}

module _ {n : Network} {Act Stage : Type 0} (net : NetAction n → Act) (over : Stage)
    (Turn : Stage → Act → Stage → Type 0) (dialled connected : n.Stream → Stage) (s : Stage)
    (server : SocketAddr) (secs : ℕ) (dst : Address) (auth : Option UserKey) where
  abbrev granted : n.Stream → Unit {0} → Run Act n.Stream
  granted stream done = pure stream

  abbrev ask : n.Stream → Run Act n.Stream
  ask stream =
      act (net (socks_request stream dst auth)) (n.socks_connect stream dst auth) >>= granted stream

  -- Where dialling the server, and asking it for the target over the stream that this gave, are
  -- actions of their stages, and a session follows.
  pub create_s5_connect-Session :
      {B : Type 0} (f : n.Stream → Run Act B)
      → Turn s
          (net (dial_timeout server secs))
          (on_success over (n.connect_timeout server secs) dialled)
      → ((stream : n.Stream)
          → Turn
              (dialled stream)
              (net (socks_request stream dst auth))
              (on_success over (n.socks_connect stream dst auth) (λ done. connected stream)))
      → ((stream : n.Stream) → Session over Turn (connected stream) (f stream).0)
      → Session over Turn s (create_s5_connect net server secs dst auth >>= f).0
  unfolding create_s5_connect
  create_s5_connect-Session f dials requests served =
      goes dials (by_dial (n.connect_timeout server secs))
    where
      by_grant :
          (stream : n.Stream) (r : Result (Unit {0}))
          → Session over Turn
              (on_success over r (λ done. connected stream))
              ((continue r (granted stream)).0 ++ (continue (continue r (granted stream)).1 f).0)
      by_grant stream (ok done) = served stream
      by_grant stream (err e) = ends

      by_dial :
          (r : Result n.Stream)
          → Session over Turn
              (on_success over r dialled)
              ((continue r ask).0 ++ (continue (continue r ask).1 f).0)
      by_dial (err e) = ends
      by_dial (ok stream) =
          goes (requests stream) (by_grant stream (n.socks_connect stream dst auth))
