-- ===== src/Api/Threads.antt =====
-- src/api.rs called from several threads of the host program at once: the accesses to `TUN_QUIT`
-- and to the channels one by one, interleaved in any order.
pub mod Alone
pub mod Invariant
pub mod Liveness
pub mod Lost
pub mod Safety
use socks_hub.Prelude.{
  ℕ, ◌+◌, ◌≡◌, Bool, true, false, not, ◌||◌, List, [], ◌∷◌, Option, none, some, any, ◌==◌,
}
use mathlib.Core.Logic.{ite}
use native.Mathlib.Decide.{ℕ_discrete}
use socks_hub.Api.{Channel, Code, success, minus, State, is_alive, drop_id}

abbrev pub has : List ℕ → ℕ → Bool
has ids id = any (λ i. i == id) ids

-- `TUN_QUIT` and the running servers; the channels to which `()` has been sent, and those whose
-- sender has been dropped. A sender is never cloned, so a channel has one at most.
pub record Shared : Type 0 where
  pub statics : State
  pub sent : List ℕ
  pub dropped : List ℕ

-- Where a thread stands, with the local variables that are live there.
pub data Call : Type 0 where
  idle : Call  -- in the host program
  admitted : Call  -- `api_internal_run` after its test of `TUN_QUIT`
  serving : (id : ℕ) → Call  -- in `main_entry`, which has the receiver
  stopping : (id : ℕ) → Call  -- `api_internal_stop` with the sender that it has taken
  finished : Code → Call

-- `tx` of a new channel is assigned to `TUN_QUIT`; a sender that has stood there is dropped.
abbrev pub publish : Shared → Shared
publish m = record {
  statics = record {
    tun_quit = some m.statics.fresh;
    fresh = m.statics.fresh + 1;
    alive = m.statics.fresh ∷ m.statics.alive;
  };
  sent = m.sent;
  dropped = elim m.statics.tun_quit [ none ↦ m.dropped | some id ↦ id ∷ m.dropped ];
}

-- `TUN_QUIT.take()`, which found the sender of `id`.
abbrev pub take_sender : Shared → Shared
take_sender m = record m { statics = record m.statics { tun_quit = none } }

abbrev pub drop_sender : ℕ → Shared → Shared
drop_sender id m = record m { dropped = id ∷ m.dropped }

-- `tun_quit.send(())`, after which the block ends and drops the sender.
abbrev pub send : ℕ → Shared → Shared
send id m = record m { sent = id ∷ m.sent; dropped = id ∷ m.dropped }

-- `main_entry` returns and drops the receiver.
abbrev pub drop_receiver : ℕ → Shared → Shared
drop_receiver id m = record m { statics = record m.statics { alive = drop_id id m.statics.alive } }

-- There is a message, or there is no sender any more.
abbrev pub is_quitting : Shared → ℕ → Bool
is_quitting m id = has m.sent id || has m.dropped id

abbrev pub update {ℓ} : {A : Type ℓ} → (ℕ → A) → ℕ → A → ℕ → A
update f i a j = ite (ℕ_discrete i j) a (f j)

pub record System : Type 0 where
  pub shared : Shared
  pub calls : ℕ → Call

module _ (ch : Channel) where
  -- One step of one thread. Whether a runtime is built and the configuration printed, and when the
  -- server fails, is left open.
  pub data Move (m : Shared) : Call → Shared → Call → Type 0 where
    refuse : {id : ℕ} → m.statics.tun_quit ≡ some id → Move m idle m (finished (minus 1))
    admit : m.statics.tun_quit ≡ none → Move m idle m admitted
    no_runtime : Move m admitted m (finished (minus 1))
    unprinted : Move m admitted m (finished (minus 2))
    start : Move m admitted (publish m) (serving m.statics.fresh)
    quit :
        {id : ℕ}
        → ch.recv (has m.sent id) (has m.dropped id) ≡ true
        → Move m (serving id) (drop_receiver id m) (finished success)
    fail : {id : ℕ} → Move m (serving id) (drop_receiver id m) (finished (minus 2))
    not_started : m.statics.tun_quit ≡ none → Move m idle m (finished (minus 1))
    take : {id : ℕ} → m.statics.tun_quit ≡ some id → Move m idle (take_sender m) (stopping id)
    stop_no_runtime : {id : ℕ} → Move m (stopping id) (drop_sender id m) (finished (minus 2))
    tell :
        {id : ℕ}
        → ch.send (is_alive m.statics.alive id) ≡ true
        → Move m (stopping id) (send id m) (finished success)
    untold :
        {id : ℕ}
        → ch.send (is_alive m.statics.alive id) ≡ false
        → Move m (stopping id) (drop_sender id m) (finished (minus 3))
    again : {code : Code} → Move m (finished code) m idle

  pub data Step (s : System) : System → Type 0 where
    by :
        (i : ℕ) {m : Shared} {c : Call}
        → Move s.shared (s.calls i) m c
        → Step s (record { shared = m; calls = update s.calls i c })

  pub data Steps (s : System) : System → Type 0 where
    stay : Steps s s
    later : {t u : System} → Steps s t → Step t u → Steps s u

-- The host program has called nothing yet.
abbrev pub init : System
init = record {
  shared = record {
    statics = record { tun_quit = none; fresh = 0; alive = [] };
    sent = [];
    dropped = [];
  };
  calls = λ i. idle;
}
