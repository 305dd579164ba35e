-- ===== src/Api.antt =====
-- src/api.rs: starting and stopping the server from a host program. `TUN_QUIT` holds the sender of
-- the running server's channel; a channel is its number, and it is alive while its server runs.
pub mod Running
pub mod Threads
use socks_hub.Prelude.{
  ℕ, ◌+◌, ◌≡◌, refl, Bool, true, false, not, List, [], ◌∷◌, Option, none, some, ◌==◌, if◌then◌else◌,
  arith, any,
}
use socks_hub.Io.{Result, ok, err}

-- The integer that the C caller gets: 0 or a negative number.
pub data Code : Type 0 where
  success : Code
  minus : ℕ → Code

-- tokio's mpsc channel, as the code uses it: whether `recv` completes, for a channel to which `()`
-- has been sent or not, and whose sender has been dropped or not; and whether the one message that
-- a sender sends is taken, for a receiver that is alive or not.
pub record Channel : Type 0 where
  pub recv : Bool → Bool → Bool
  pub send : Bool → Bool

-- What tokio documents: `recv` completes with a message or when there is no sender left, and waits
-- otherwise; `send` fails exactly if the receiver is gone.
pub record ChannelLaws (ch : Channel) : Type 0 where
  pub recv-sent : (dropped : Bool) → ch.recv true dropped ≡ true
  pub recv-dropped : ch.recv false true ≡ true
  pub recv-waiting : ch.recv false false ≡ false
  pub send-alive : ch.send true ≡ true
  pub send-closed : ch.send false ≡ false

pub record State : Type 0 where
  pub tun_quit : Option ℕ
  pub fresh : ℕ
  pub alive : List ℕ

abbrev pub is_alive : List ℕ → ℕ → Bool
is_alive ids id = any (λ i. i == id) ids

abbrev pub drop_id : ℕ → List ℕ → List ℕ
drop_id id [] = []
drop_id id (i ∷ ids) = let rest = drop_id id ids in if i == id then rest else i ∷ rest

-- `api_internal_run` until `main_entry` is awaited: the code if it returns at once, or none while
-- the server runs on the channel `fresh` of the state before. `runtime` says whether the tokio
-- runtime is built, `printed` whether the configuration is logged without an error.
unfoldable pub start_run : Bool → Bool → State → Option Code × State
start_run runtime printed s = elim s.tun_quit [
  | some id ↦ (some (minus 1), s)
  | none ↦
      if not runtime then (some (minus 1), s) else if not printed then (some (minus 2), s) else (
        none,
        record { tun_quit = some s.fresh; fresh = s.fresh + 1; alive = s.fresh ∷ s.alive },
      )
]

-- The rest of `api_internal_run`: `main_entry` has returned, and its receiver is dropped.
unfoldable pub end_run : ℕ → Result (Unit {0}) → State → Code × State
end_run id (ok done) s = (success, record s { alive = drop_id id s.alive })
end_run id (err e) s = (minus 2, record s { alive = drop_id id s.alive })

-- `api_internal_stop`
unfoldable pub stop : Channel → Bool → State → Code × State
stop ch runtime s = elim s.tun_quit [
  | none ↦ (minus 1, s)
  | some id ↦
      if not runtime
      then (minus 2, record s { tun_quit = none })
      else if ch.send (is_alive s.alive id)
      then (success, record s { tun_quit = none })
      else (minus 3, record s { tun_quit = none })
]

-- A server that has been started keeps a second one from starting; it can be stopped once, and then
-- a new one can be started.
start_run-stop :
    {ch : Channel} (s : State)
    → ChannelLaws ch
    → s.tun_quit ≡ none
    → ((start_run true true s).0 ≡ none)
      × ((start_run true true (start_run true true s).1).0 ≡ some (minus 1))
      × ((stop ch true (start_run true true s).1).0 ≡ success)
      × ((stop ch true (stop ch true (start_run true true s).1).1).0 ≡ minus 1)
      × ((start_run true true (stop ch true (start_run true true s).1).1).0 ≡ none)
unfolding start_run stop
start_run-stop s laws idle = (
  ground arith,
  ground arith,
  ground (arith, laws.send-alive),
  ground (arith, laws.send-alive),
  ground (arith, laws.send-alive),
)

is_alive-drop_id : (id : ℕ) (ids : List ℕ) → is_alive (drop_id id ids) id ≡ false
is_alive-drop_id id [] = refl
is_alive-drop_id id (i ∷ ids) = ground (arith, is_alive-drop_id id ids)

-- Over a channel as tokio documents it, a server whose `main_entry` has returned by itself, with
-- whatever result, leaves its channel behind: a new server is refused, and stopping fails with -3,
-- after which one can be started.
pub end_run-blocks :
    {ch : Channel} (s : State) (result : Result (Unit {0}))
    → ChannelLaws ch
    → s.tun_quit ≡ none
    → ((start_run true true (end_run s.fresh result (start_run true true s).1).1).0
        ≡ some (minus 1))
      × ((stop ch true (end_run s.fresh result (start_run true true s).1).1).0 ≡ minus 3)
      × ((start_run true true
            (stop ch true (end_run s.fresh result (start_run true true s).1).1).1).0
          ≡ none)
unfolding start_run stop end_run
end_run-blocks s (ok done) laws idle =
    let gone = is_alive-drop_id s.fresh s.alive in
    (ground arith, ground (arith, laws.send-closed), ground (arith, laws.send-closed))
end_run-blocks s (err e) laws idle =
    let gone = is_alive-drop_id s.fresh s.alive in
    (ground arith, ground (arith, laws.send-closed), ground (arith, laws.send-closed))
