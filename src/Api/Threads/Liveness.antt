-- ===== src/Api/Threads/Liveness.antt =====
-- src/api.rs from several threads: that a running server can be stopped, and that it quits by
-- itself when another one is started over it.
use socks_hub.Prelude.{ℕ, ◌≡◌, refl, inl, inr, true, some, arith}
use socks_hub.Api.{Channel, ChannelLaws, success, is_alive}
use socks_hub.Api.Threads.{
  Shared, Call, idle, admitted, serving, stopping, finished, Move, start, quit, tell, take, System,
  by, Steps, stay, later, init, update, is_quitting, publish,
}
use socks_hub.Api.Threads.Invariant.{Steps-Inv, quitting-recv}

abbrev after : System → ℕ → Shared → Call → System
after s i m c = record { shared = m; calls = update s.calls i c }

module _ {ch : Channel} (laws : ChannelLaws ch) where
  -- A thread that stands at `c` makes a move from there.
  moves :
      {s t : System} {i : ℕ} {m : Shared} {c c' : Call}
      → Steps ch s t
      → t.calls i ≡ c
      → Move ch t.shared c m c'
      → Steps ch s (after t i m c')
  moves {i} run at mv = later run (by i (rw at mv))

  -- A thread whose server has been told to quit, or has lost its sender, returns.
  quits :
      {s t : System} {i id : ℕ}
      → Steps ch s t
      → t.calls i ≡ serving id
      → is_quitting t.shared id ≡ true
      → (u : System) × (Steps ch s u × (u.calls i ≡ finished success))
  quits run at told = (_, (moves run at (quit (quitting-recv laws _ _ told)), ground arith))

  -- A thread that has taken the sender of a running server tells it to quit, and it returns.
  tells :
      {s t : System} {i k id : ℕ}
      → Steps ch s t
      → t.calls i ≡ serving id
      → t.calls k ≡ stopping id
      → is_alive t.shared.statics.alive id ≡ true
      → (u : System) × (Steps ch s u × (u.calls i ≡ finished success))
  tells {i} {id} run at taken alive =
      quits {i = i} {id = id} (moves run taken (tell (rw alive laws.send-alive))) (ground arith)
        (ground arith)

  -- Over a channel as tokio documents it, and whatever the threads of the host have done: a server
  -- that runs in one thread can be stopped when another thread is idle. There are steps after which
  -- the call that runs the server has returned 0.
  pub server-can_stop :
      {s : System} {i k id : ℕ}
      → Steps ch init s
      → s.calls i ≡ serving id
      → s.calls k ≡ idle
      → (t : System) × (Steps ch s t × (t.calls i ≡ finished success))
  server-can_stop {s} {i} {k} {id} run at free = elim (reached i id at) [
    | inl told ↦ quits stay at told
    | inr (inr (j, taken)) ↦ tells stay at taken (serves i id at).1
    | inr (inl there) ↦
        tells {i = i} {k = k} {id = id} (moves stay free (take there)) (ground arith) (ground arith)
          (serves i id at).1
  ]
    where
      open (Steps-Inv laws run) use {reached, serves}

  -- Over a channel as tokio documents it, a second thread that has passed the test of `TUN_QUIT`
  -- before the first one's server was started starts its own server over it. Nothing is sent, and
  -- yet the first server can quit, with 0.
  pub start-displaces :
      {s : System} {i j id : ℕ}
      → s.calls i ≡ admitted
      → s.calls j ≡ serving id
      → s.shared.statics.tun_quit ≡ some id
      → (t : System) × (Steps ch s t
          × ((t.calls j ≡ finished success)
              × ((t.calls i ≡ serving s.shared.statics.fresh) × (t.shared.sent ≡ s.shared.sent))))
  start-displaces {s} {i} {j} {id} there at first =
      let started : Steps ch s (after s i (publish s.shared) (serving s.shared.statics.fresh)) =
        moves stay there start in
      (
        _,
        (
          moves {i = j} started (ground arith)
              (quit {id = id} (quitting-recv laws _ _ (ground arith))),
          (ground arith, (ground arith, refl)),
        ),
      )
