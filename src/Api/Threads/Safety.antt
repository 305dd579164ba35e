-- ===== src/Api/Threads/Safety.antt =====
-- src/api.rs from several threads: that every server stays within reach of a stop.
use socks_hub.Prelude.{ℕ, ◌≡◌, ◌≢◌, ◌⊎◌, inl, inr, true, false, arith}
use socks_hub.Api.{Channel, ChannelLaws, is_alive}
use socks_hub.Api.Threads.{serving, stopping, System, Steps, init, is_quitting}
use socks_hub.Api.Threads.Invariant.{Steps-Inv}

-- Over a channel as tokio documents it: of two servers that run in different threads, each of which
-- still waits for its channel, because no message has been sent to it and its sender has not been
-- dropped either, one is about to be stopped: some thread has taken its sender out of `TUN_QUIT` to
-- stop it.
pub one_server_stays :
    {ch : Channel} {s : System} {i j a b : ℕ}
    → ChannelLaws ch
    → Steps ch init s
    → s.calls i ≡ serving a
    → s.calls j ≡ serving b
    → i ≢ j
    → is_quitting s.shared a ≡ false
    → is_quitting s.shared b ≡ false
    → (k : ℕ) × ((s.calls k ≡ stopping a) ⊎ (s.calls k ≡ stopping b))
one_server_stays {s} {i} {j} {a} {b} laws run ia jb apart qa qb = elim (reached i a ia) [
  | inl told ↦ ground arith
  | inr (inr (k, taken)) ↦ (k, inl taken)
  | inr (inl there) ↦ elim (reached j b jb) [
    | inl told ↦ ground arith
    | inr (inr (k, taken)) ↦ (k, inr taken)
    | inr (inl there') ↦ absurd (apart (one_server i j a ia (ground arith)))
  ]
]
  where
    open (Steps-Inv laws run) use {reached, one_server}

-- Over a channel as tokio documents it: a thread that has taken a sender, and finds the receiver
-- alive, tells exactly one thread to quit, one that nothing has told before.
pub told_once :
    {ch : Channel} {s : System} {k id : ℕ}
    → ChannelLaws ch
    → Steps ch init s
    → s.calls k ≡ stopping id
    → is_alive s.shared.statics.alive id ≡ true
    → (is_quitting s.shared id ≡ false)
      × ((i : ℕ) × ((s.calls i ≡ serving id) × ((j : ℕ) → s.calls j ≡ serving id → j ≡ i)))
told_once {k} {id} laws run taken alive =
    let (i, there) = served id alive in
    (ground (arith, stops k id), (i, (there, λ j other. one_server j i id other there)))
  where
    open (Steps-Inv laws run) use {stops, served, one_server}
