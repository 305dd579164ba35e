-- ===== src/Api/Threads/Alone.antt =====
-- A call of src/api.rs that no other thread interrupts: what the steps of its thread come to.
use socks_hub.Prelude.{
  ◌≡◌, refl, ◌⊎◌, inl, inr, Bool, true, false, Option, none, some, [], arith, Bool-cases,
  Option-cases,
}
use socks_hub.Io.{Result, ok, err, os}
use socks_hub.Api.{Channel, ChannelLaws, Code, is_alive, start_run, end_run, stop}
use socks_hub.Api.Threads.Invariant.{send-is_alive, send-gone}
use socks_hub.Api.Threads.{
  Shared, Call, idle, admitted, serving, stopping, finished, Move, start, quit, tell, take, untold,
  fail, refuse, admit, no_runtime, unprinted, not_started, stop_no_runtime, again, take_sender,
}

-- Whether the thread has called, and not come back to the host program.
abbrev is_inside : Call → Bool
is_inside idle = false
is_inside _ = true

abbrev code_of : Call → Option Code
code_of (finished code) = some code
code_of _ = none

module _ (ch : Channel) where
  -- The moves of one thread within one call: it does not come back to the host program.
  data Moves (m : Shared) (c : Call) : Shared → Call → Type 0 where
    at_once : Moves m c m c
    next :
        {m' m'' : Shared} {c' c'' : Call}
        → Moves m c m' c'
        → Move ch m' c' m'' c''
        → is_inside c'' ≡ true
        → Moves m c m'' c''

  -- What the call of a thread that was idle at `m` has come to: for a call that goes on, the state
  -- it has left; for one that has returned, the function that gives its code and that state.
  IsDone : Shared → Shared → Call → Type 0
  IsDone m m' idle = m' ≡ m
  IsDone m m' admitted = (m' ≡ m) × (m.statics.tun_quit ≡ none)
  IsDone m m' (serving id) =
      (start_run true true m.statics ≡ (none, m'.statics)) × (id ≡ m.statics.fresh)
  IsDone m m' (stopping id) = (m' ≡ take_sender m) × (m.statics.tun_quit ≡ some id)
  IsDone m m' (finished code) =
      ((runtime : Bool) × ((printed : Bool) × (start_run runtime printed m.statics
            ≡ (some code, m'.statics))))
      ⊎ (((result : Result (Unit {0})) × (m.statics.tun_quit ≡ none)
            × (end_run m.statics.fresh result (start_run true true m.statics).1
                ≡ (code, m'.statics)))
          ⊎ ((runtime : Bool) × (stop ch runtime m.statics ≡ (code, m'.statics))))

module _ {ch : Channel} (laws : ChannelLaws ch) where
  Move-IsDone :
      (m : Shared) {m' m'' : Shared} {c' c'' : Call}
      → Move ch m' c' m'' c''
      → is_inside c'' ≡ true
      → IsDone ch m m' c'
      → IsDone ch m m'' c''
  unfolding IsDone start_run end_run stop
  Move-IsDone m (refuse g) out h = inl (true, (true, ground arith))
  Move-IsDone m (admit g) out h = ground arith
  Move-IsDone m no_runtime out h = inl (false, (true, ground arith))
  Move-IsDone m unprinted out h = inl (true, (false, ground arith))
  Move-IsDone m start out h = ground arith
  Move-IsDone m (quit g) out h = inr (inl (ok tt, ground arith, ground arith))
  Move-IsDone m fail out h =
      inr (inl (err (record { kind = os; message = [] }), ground arith, ground arith))
  Move-IsDone m (not_started g) out h = inr (inr (true, ground arith))
  Move-IsDone m (take g) out h = ground arith
  Move-IsDone m stop_no_runtime out h = inr (inr (false, ground arith))
  Move-IsDone m (tell g) out h =
      let alive = send-is_alive laws _ g in inr (inr (true, ground (arith, laws.send-alive)))
  Move-IsDone m (untold g) out h =
      let dead = send-gone laws _ g in inr (inr (true, ground (arith, laws.send-closed)))
  Move-IsDone m again out h = ground arith

  -- The codes
  Moves-IsDone : {m m' : Shared} {c : Call} → Moves ch m idle m' c → IsDone ch m m' c
  unfolding IsDone
  Moves-IsDone at_once = refl
  Moves-IsDone {m} (next run mv out) = Move-IsDone m mv out (Moves-IsDone run)

  module _ (m : Shared) where
    start_run-Moves :
        (runtime printed : Bool)
        → (m' : Shared) × ((c : Call) × (Moves ch m idle m' c
              × (start_run runtime printed m.statics ≡ (code_of c, m'.statics))))
    unfolding start_run
    start_run-Moves runtime printed = elim (Option-cases m.statics.tun_quit) [
      | inr (id, taken) ↦ (_, (_, (next at_once (refuse taken) refl, ground arith)))
      | inl free ↦ elim (Bool-cases runtime) [
        | inr unbuilt ↦
            (_, (_, (next (next at_once (admit free) refl) no_runtime refl, ground arith)))
        | inl built ↦ elim (Bool-cases printed) [
          | inr unshown ↦
              (_, (_, (next (next at_once (admit free) refl) unprinted refl, ground arith)))
          | inl shown ↦ (_, (_, (next (next at_once (admit free) refl) start refl, ground arith)))
        ]
      ]
    ]

    stop-Moves :
        (runtime : Bool)
        → (m' : Shared) × ((code : Code) × (Moves ch m idle m' (finished code)
              × (stop ch runtime m.statics ≡ (code, m'.statics))))
    unfolding stop
    stop-Moves runtime = elim (Option-cases m.statics.tun_quit) [
      | inl free ↦ (_, (_, (next at_once (not_started free) refl, ground arith)))
      | inr (id, taken) ↦ elim (Bool-cases runtime) [
        | inr unbuilt ↦
            (_, (_, (next (next at_once (take taken) refl) stop_no_runtime refl, ground arith)))
        | inl built ↦ elim (Bool-cases (ch.send (is_alive m.statics.alive id))) [
          | inl alive ↦
              (_, (_, (next (next at_once (take taken) refl) (tell alive) refl, ground arith)))
          | inr dead ↦
              (_, (_, (next (next at_once (take taken) refl) (untold dead) refl, ground arith)))
        ]
      ]
    ]

    -- Over a channel as tokio documents it, a call that no other thread interrupts comes to what
    -- `start_run`, `end_run` and `stop` say: each result of `start_run` and `stop` is that of some
    -- steps, and steps come to no other result.
    calls-alone :
        ((runtime printed : Bool)
          → (m' : Shared) × ((c : Call) × (Moves ch m idle m' c
                × (start_run runtime printed m.statics ≡ (code_of c, m'.statics)))))
        × ((runtime : Bool)
            → (m' : Shared) × ((code : Code) × (Moves ch m idle m' (finished code)
                  × (stop ch runtime m.statics ≡ (code, m'.statics)))))
        × ((m' : Shared) (c : Call) → Moves ch m idle m' c → IsDone ch m m' c)
    calls-alone = (start_run-Moves, stop-Moves, λ m' c run. Moves-IsDone run)
