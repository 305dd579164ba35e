-- ===== src/Api/Threads/Lost.antt =====
-- src/api.rs from several threads: why a server quits.
use socks_hub.Prelude.{ℕ, ◌≡◌, ◌⊎◌, inl, inr, true, some, arith, or-eq-true_iff}
use socks_hub.Api.{Channel, ChannelLaws, is_alive}
use socks_hub.Api.Threads.{
  has, Shared, Call, serving, Move, start, quit, fail, tell, untold, stop_no_runtime, System, by,
  Steps, stay, later, init, is_quitting,
}
use socks_hub.Api.Threads.Invariant.{Inv, Steps-Inv, is_alive-drop_id, send-gone}

-- The move drops the sender of a server without a message: it assigns the sender of a new server to
-- `TUN_QUIT` over it, or it is a stop that has taken it and then finds no runtime.
abbrev pub Loses : ℕ → {ch : Channel} {m m' : Shared} {c c' : Call} → Move ch m c m' c' → Type 0
Loses id {m = m} start = m.statics.tun_quit ≡ some id
Loses id (stop_no_runtime {id = j}) = j ≡ id
Loses id _ = ⊥

-- One of the steps has done so.
pub WasLost : ℕ → {ch : Channel} {s t : System} → Steps ch s t → Type 0
WasLost id stay = ⊥
WasLost id (later before (by i mv)) = WasLost id before ⊎ Loses id mv

module _ {ch : Channel} (laws : ChannelLaws ch) where
  module _ {m : Shared} {calls : ℕ → Call} (inv : Inv m calls) (i : ℕ) where
    open inv use {old}

    -- A sender that is dropped by this move has sent its message, or is lost by this move.
    Move-dropped :
        {c c' : Call} {m' : Shared} (mv : Move ch m c m' c')
        → (id : ℕ) → has m'.dropped id ≡ true
        → is_alive m'.statics.alive id ≡ true
        → (has m'.sent id ≡ true)
          ⊎ (((has m.dropped id ≡ true) × (is_alive m.statics.alive id ≡ true)) ⊎ Loses id mv)
    Move-dropped start id p q = ground (arith, old id)
    Move-dropped stop_no_runtime id p q = ground arith
    Move-dropped (quit {id = k} g) id p q =
        inr (inl (ground (arith, is_alive-drop_id k id m.statics.alive)))
    Move-dropped (fail {id = k}) id p q =
        inr (inl (ground (arith, is_alive-drop_id k id m.statics.alive)))
    Move-dropped (untold {id = k} gone) id p q = let dead = send-gone laws _ gone in ground arith
    Move-dropped mv id p q = ground arith

    -- What has been sent stays so.
    Move-sent :
        {c c' : Call} {m' : Shared}
        → Move ch m c m' c'
        → (id : ℕ) → has m.sent id ≡ true
        → has m'.sent id ≡ true
    Move-sent (tell g) id p = ground arith
    Move-sent mv id p = p

  dropped-WasLost :
      {s : System} (run : Steps ch init s)
      → (id : ℕ) → has s.shared.dropped id ≡ true
      → is_alive s.shared.statics.alive id ≡ true
      → (has s.shared.sent id ≡ true) ⊎ WasLost id run
  unfolding WasLost
  dropped-WasLost stay id p q = ground arith
  dropped-WasLost (later before (by i mv)) id p q =
      elim (Move-dropped (Steps-Inv laws before) i mv id p q) [
        | inl told ↦ inl told
        | inr (inr lost) ↦ inr (inr lost)
        | inr (inl (dropped, alive)) ↦ elim (dropped-WasLost before id dropped alive) [
          | inl told ↦ inl (Move-sent (Steps-Inv laws before) i mv id told)
          | inr lost ↦ inr (inl lost)
        ]
      ]

-- Over a channel as tokio documents it, and in every interleaving of the threads: a running server
-- for which `quit.recv()` can complete has been sent the message by a stop, or its sender has been
-- dropped in one of two ways, in a step that stands in the history: the start of another server was
-- assigned to `TUN_QUIT` over it, or a stop that had taken it found no runtime.
pub quits-WasLost :
    {ch : Channel} {s : System} {i id : ℕ}
    → ChannelLaws ch
    → (run : Steps ch init s) → s.calls i ≡ serving id
    → is_quitting s.shared id ≡ true
    → (has s.shared.sent id ≡ true) ⊎ WasLost id run
quits-WasLost {s} {i} {id} laws run at quitting =
    let alive = ((Steps-Inv laws run).serves i id at).1 in
    elim ((or-eq-true_iff (has s.shared.sent id) (has s.shared.dropped id)).0 quitting) [
      | inl told ↦ inl told
      | inr dropped ↦ dropped-WasLost laws run id dropped alive
    ]
