-- ===== src/Listener.antt =====
-- The accept loops of src/http2socks.rs (`main_entry`) and src/socks2socks.rs (`main_loop`): what
-- `tokio::select!` reports, one event for each round, and the tasks that are started.
use socks_hub.Prelude.{◌≡◌, refl, ap, List, [], ◌∷◌, ◌++◌, map}
use socks_hub.Io.{Error, Result, ok, err}

-- `quit.recv()` or `listener.accept()`.
pub data Event (Conn : Type 0) : Type 0 where
  quit : Event Conn
  accept : Result Conn → Event Conn

-- Whether the loop goes on after the events, or has returned.
pub data Status : Type 0 where
  listening : Status
  returned : Result (Unit {0}) → Status

module _ {Conn : Type 0} where
  abbrev also : Conn → List Conn × Status → List Conn × Status
  also conn (conns, status) = (conn ∷ conns, status)

  -- The connections for which a task is started, in order, and the loop's status.
  unfoldable pub accept_loop : List (Event Conn) → List Conn × Status
  accept_loop [] = ([], listening)
  accept_loop (quit ∷ events) = ([], returned (ok tt))
  accept_loop (accept (err e) ∷ events) = ([], returned (err e))
  accept_loop (accept (ok conn) ∷ events) = also conn (accept_loop events)

  -- As long as connections are accepted, each is served, and the loop goes on; a quit signal then
  -- ends it without an error, an accept error ends it with that error, and what is behind is not
  -- served.
  accept_loop-ends :
      (conns : List Conn) (events : List (Event Conn)) (e : Error)
      → (accept_loop (map (λ c. accept (ok c)) conns) ≡ (conns, listening))
        × (accept_loop (map (λ c. accept (ok c)) conns ++ quit ∷ events)
            ≡ (conns, returned (ok tt)))
        × (accept_loop (map (λ c. accept (ok c)) conns ++ accept (err e) ∷ events)
            ≡ (conns, returned (err e)))
  unfolding accept_loop
  accept_loop-ends [] events e = (refl, refl, refl)
  accept_loop-ends (c ∷ conns) events e =
      let (a, b, d) = accept_loop-ends conns events e in
      (ap (also c) a, ap (also c) b, ap (also c) d)
