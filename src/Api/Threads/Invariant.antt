-- ===== src/Api/Threads/Invariant.antt =====
-- What holds of `TUN_QUIT` and the channels in every state that threads of the host can reach.
use socks_hub.Prelude.{
  ℕ, ◌<◌, ◌≡◌, refl, ◌≢◌, ◌⊎◌, inl, inr, true, false, not, ◌&&◌, List, [], ◌∷◌, none, some, arith,
  ◌==◌, Bool-cases, sym, ◌∙◌, ◌||◌, Bool,
}
use native.Mathlib.Decide.{ℕ_discrete}
use mathlib.Core.Bool.{false≢true}
use socks_hub.Api.{Channel, ChannelLaws, is_alive, drop_id}
use socks_hub.Api.Threads.{
  Shared, Call, serving, stopping, Move, start, quit, tell, untold, fail, take, refuse, admit,
  not_started, System, Step, by, Steps, stay, later, init, update, is_quitting,
}

pub record Inv (m : Shared) (calls : ℕ → Call) : Type 0 where
  pub placed :
      (id : ℕ) → m.statics.tun_quit ≡ some id → (id < m.statics.fresh) × (is_quitting m id ≡ false)
  pub old : (id : ℕ) → is_quitting m id ≡ true → id < m.statics.fresh
  pub serves :
      (i id : ℕ)
      → calls i ≡ serving id
      → (id < m.statics.fresh) × (is_alive m.statics.alive id ≡ true)
  pub stops :
      (i id : ℕ)
      → calls i ≡ stopping id
      → (id < m.statics.fresh) × (is_quitting m id ≡ false) × (m.statics.tun_quit ≢ some id)
  pub one_server : (i j id : ℕ) → calls i ≡ serving id → calls j ≡ serving id → i ≡ j
  pub one_stopper : (i j id : ℕ) → calls i ≡ stopping id → calls j ≡ stopping id → i ≡ j
  pub reached :
      (i id : ℕ)
      → calls i ≡ serving id
      → (is_quitting m id ≡ true)
        ⊎ ((m.statics.tun_quit ≡ some id) ⊎ ((j : ℕ) × (calls j ≡ stopping id)))
  pub served : (id : ℕ) → is_alive m.statics.alive id ≡ true → (i : ℕ) × (calls i ≡ serving id)

Inv-init : Inv init.shared init.calls
Inv-init = record {
  placed = λ id e. ground arith;
  old = λ id e. ground arith;
  serves = λ i id e. ground arith;
  stops = λ i id e. ground arith;
  one_server = λ i j id e f. ground arith;
  one_stopper = λ i j id e f. ground arith;
  reached = λ i id e. ground arith;
  served = λ id e. ground arith;
}

pub is_alive-drop_id :
    (id j : ℕ) (ids : List ℕ) → is_alive (drop_id id ids) j ≡ (is_alive ids j && not (id == j))
is_alive-drop_id id j [] = refl
is_alive-drop_id id j (k ∷ ids) = ground (arith, is_alive-drop_id id j ids)

module _ {ch : Channel} (laws : ChannelLaws ch) where
  -- What a completed `recv`, or the result of `send`, says of the channel.
  recv-quitting : (sent dropped : Bool) → ch.recv sent dropped ≡ true → (sent || dropped) ≡ true
  recv-quitting true dropped e = refl
  recv-quitting false true e = refl
  recv-quitting false false e = sym laws.recv-waiting ∙ e

  pub send-is_alive : (alive : Bool) → ch.send alive ≡ true → alive ≡ true
  send-is_alive true e = refl
  send-is_alive false e = sym laws.send-closed ∙ e

  pub send-gone : (alive : Bool) → ch.send alive ≡ false → alive ≡ false
  send-gone false e = refl
  send-gone true e = sym laws.send-alive ∙ e

  -- And the other way round.
  pub quitting-recv : (sent dropped : Bool) → (sent || dropped) ≡ true → ch.recv sent dropped ≡ true
  quitting-recv true dropped e = laws.recv-sent dropped
  quitting-recv false true e = laws.recv-dropped
  quitting-recv false false e = absurd (false≢true e)

  -- The premise of a move, for the catch-all clauses below, which cannot name it.
  abbrev Guard : {m m' : Shared} {c c' : Call} → Move ch m c m' c' → Type 0
  Guard {m} (refuse {id} _) = m.statics.tun_quit ≡ some id
  Guard {m} (admit _) = m.statics.tun_quit ≡ none
  Guard {m} (not_started _) = m.statics.tun_quit ≡ none
  Guard {m} (take {id} _) = m.statics.tun_quit ≡ some id
  Guard {m} (quit {id} _) = is_quitting m id ≡ true
  Guard {m} (tell {id} _) = is_alive m.statics.alive id ≡ true
  Guard {m} (untold {id} _) = is_alive m.statics.alive id ≡ false
  Guard _ = Unit

  guard : {m m' : Shared} {c c' : Call} (mv : Move ch m c m' c') → Guard mv
  guard (refuse g) = g
  guard (admit g) = g
  guard (not_started g) = g
  guard (take g) = g
  guard (quit g) = recv-quitting _ _ g
  guard (tell g) = send-is_alive _ g
  guard (untold g) = send-gone _ g
  guard _ = tt

  module _ {m : Shared} {calls : ℕ → Call} (inv : Inv m calls) (i : ℕ) where
    open inv use {placed, old, serves, stops, one_server, one_stopper, reached, served}

    Move-placed :
        {c c' : Call} {m' : Shared}
        → Move ch m c m' c'
        → calls i ≡ c
        → (id : ℕ) → m'.statics.tun_quit ≡ some id
        → (id < m'.statics.fresh) × (is_quitting m' id ≡ false)
    Move-placed start e id q = ground (arith, placed id, old id, Bool-cases (is_quitting m id))
    Move-placed mv e id q = ground (arith, guard mv, placed id, old id, stops i id)

    Move-old :
        {c c' : Call} {m' : Shared}
        → Move ch m c m' c'
        → calls i ≡ c
        → (id : ℕ) → is_quitting m' id ≡ true
        → id < m'.statics.fresh
    Move-old start e id q = ground (arith, placed id, old id)
    Move-old mv e id q = ground (arith, guard mv, placed id, old id, stops i id)

    Move-serves :
        {c c' : Call} {m' : Shared}
        → Move ch m c m' c'
        → calls i ≡ c
        → (j id : ℕ) → update calls i c' j ≡ serving id
        → (id < m'.statics.fresh) × (is_alive m'.statics.alive id ≡ true)
    Move-serves start e j id q = ground (arith, serves j id)
    Move-serves (quit {id = k} g) e j id q =
        ground (arith, serves j id, one_server i j id, is_alive-drop_id k id m.statics.alive)
    Move-serves (fail {id = k}) e j id q =
        ground (arith, serves j id, one_server i j id, is_alive-drop_id k id m.statics.alive)
    Move-serves mv e j id q = ground (arith, guard mv, serves j id)

    Move-stops :
        {c c' : Call} {m' : Shared}
        → Move ch m c m' c'
        → calls i ≡ c
        → (j id : ℕ) → update calls i c' j ≡ stopping id
        → (id < m'.statics.fresh) × (is_quitting m' id ≡ false) × (m'.statics.tun_quit ≢ some id)
    Move-stops start e j id q = ground (arith, placed id, stops j id)
    Move-stops mv e j id q = ground (arith, guard mv, placed id, stops j id, one_stopper i j id)

    Move-one_server :
        {c c' : Call} {m' : Shared}
        → Move ch m c m' c'
        → calls i ≡ c
        → (j k id : ℕ) → update calls i c' j ≡ serving id
        → update calls i c' k ≡ serving id
        → j ≡ k
    Move-one_server start e j k id p q = ground (arith, serves j id, serves k id, one_server j k id)
    Move-one_server mv e j k id p q = ground (arith, one_server j k id)

    Move-one_stopper :
        {c c' : Call} {m' : Shared}
        → Move ch m c m' c'
        → calls i ≡ c
        → (j k id : ℕ) → update calls i c' j ≡ stopping id
        → update calls i c' k ≡ stopping id
        → j ≡ k
    Move-one_stopper (take g) e j k id p q =
        ground (arith, stops j id, stops k id, one_stopper j k id)
    Move-one_stopper mv e j k id p q = ground (arith, one_stopper j k id)

    -- A sender stays within reach of its server until it is dropped.
    Move-reached :
        {c c' : Call} {m' : Shared}
        → Move ch m c m' c'
        → calls i ≡ c
        → (j id : ℕ) → update calls i c' j ≡ serving id
        → (is_quitting m' id ≡ true)
          ⊎ ((m'.statics.tun_quit ≡ some id) ⊎ ((k : ℕ) × (update calls i c' k ≡ stopping id)))
    Move-reached start e j id q = elim (ℕ_discrete i j) [
      | yes same ↦ inr (inl (ground arith))
      | no other ↦ elim (reached j id (ground arith)) [
        | inl quitting ↦ inl (ground arith)
        | inr (inl placed_there) ↦ inl (ground arith)
        | inr (inr (k, taken)) ↦ inr (inr (k, ground arith))
      ]
    ]
    Move-reached (take {id = t} g) e j id q = elim (reached j id (ground arith)) [
      | inl quitting ↦ inl (ground arith)
      | inr (inl placed_there) ↦ inr (inr (i, ground arith))
      | inr (inr (k, taken)) ↦ inr (inr (k, ground arith))
    ]
    Move-reached mv e j id q = elim (reached j id (ground arith)) [
      | inl quitting ↦ inl (ground arith)
      | inr (inl placed_there) ↦ inr (inl (ground arith))
      | inr (inr (k, taken)) ↦ elim (ℕ_discrete i k) [
        | yes same ↦ inl (ground arith)
        | no other ↦ inr (inr (k, ground arith))
      ]
    ]

    Move-served :
        {c c' : Call} {m' : Shared}
        → Move ch m c m' c'
        → calls i ≡ c
        → (id : ℕ) → is_alive m'.statics.alive id ≡ true
        → (j : ℕ) × (update calls i c' j ≡ serving id)
    Move-served start e id q = elim (ℕ_discrete m.statics.fresh id) [
      | yes same ↦ (i, ground arith)
      | no other ↦ let (j, there) = served id (ground arith) in (j, ground arith)
    ]
    Move-served (quit {id = k} g) e id q =
        let left = is_alive-drop_id k id m.statics.alive in
        let (j, there) = served id (ground arith) in (j, ground arith)
    Move-served (fail {id = k}) e id q =
        let left = is_alive-drop_id k id m.statics.alive in
        let (j, there) = served id (ground arith) in (j, ground arith)
    Move-served mv e id q = let (j, there) = served id (ground arith) in (j, ground arith)

    Move-Inv : {c' : Call} {m' : Shared} → Move ch m (calls i) m' c' → Inv m' (update calls i c')
    Move-Inv mv = record {
      placed = Move-placed mv refl;
      old = Move-old mv refl;
      serves = Move-serves mv refl;
      stops = Move-stops mv refl;
      one_server = Move-one_server mv refl;
      one_stopper = Move-one_stopper mv refl;
      reached = Move-reached mv refl;
      served = Move-served mv refl;
    }

  -- Every step of a thread keeps the invariant.
  pub Step-Inv : {s t : System} → Step ch s t → Inv s.shared s.calls → Inv t.shared t.calls
  Step-Inv (by i mv) inv = Move-Inv inv i mv

  pub Steps-Inv : {s : System} → Steps ch init s → Inv s.shared s.calls
  Steps-Inv stay = Inv-init
  Steps-Inv (later before step) = Step-Inv step (Steps-Inv before)
