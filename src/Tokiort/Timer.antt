-- ===== src/Tokiort/Timer.antt =====
-- The timer and the executor of src/tokiort.rs. tokio's `Sleep` and `spawn` are parameters.
use socks_hub.Prelude.{Bool}

pub record SleepCrate : Type 1 where
  pub Duration : Type 0
  pub Instant : Type 0
  pub InnerSleep : Type 0
  pub sleep : Duration → InnerSleep
  pub sleep_until : Instant → InnerSleep
  pub reset : InnerSleep → Instant → InnerSleep
  -- whether a poll is ready
  pub poll : InnerSleep → InnerSleep × Bool
  -- a `dyn Sleep` of another type
  pub OtherSleep : Type 0

module _ (c : SleepCrate) where
  pub record TokioSleep : Type 0 where
    pub inner : c.InnerSleep

  -- `Pin<Box<dyn Sleep>>`, by what `downcast_mut_pin` finds in it.
  pub data DynSleep : Type 0 where
    tokio_sleep : TokioSleep → DynSleep
    other_sleep : c.OtherSleep → DynSleep

  -- `Timer::sleep`, `Timer::sleep_until` of `TokioTimer`
  unfoldable pub timer_sleep : c.Duration → DynSleep
  timer_sleep duration = tokio_sleep (record { inner = c.sleep duration })

  unfoldable pub timer_sleep_until : c.Instant → DynSleep
  timer_sleep_until deadline = tokio_sleep (record { inner = c.sleep_until deadline })

  -- `TokioSleep::reset`
  unfoldable pub reset : TokioSleep → c.Instant → TokioSleep
  reset sleep deadline = record { inner = c.reset sleep.inner deadline }

  -- `Timer::reset` of `TokioTimer`
  unfoldable pub timer_reset : DynSleep → c.Instant → DynSleep
  unfolding reset
  timer_reset (tokio_sleep sleep) new_deadline = tokio_sleep (reset sleep new_deadline)
  timer_reset (other_sleep sleep) new_deadline = other_sleep sleep

  -- `Future::poll` of `TokioSleep`
  unfoldable pub poll_sleep : TokioSleep → TokioSleep × Bool
  poll_sleep sleep = let (inner, done) = c.poll sleep.inner in (record { inner = inner }, done)

-- `tokio::task::spawn`: what the runtime is once it has taken a future.
pub record SpawnCrate : Type 1 where
  pub Future : Type 0
  pub Runtime : Type 0
  pub spawn : Future → Runtime → Runtime

-- `Executor::execute` of `TokioExecutor`, which drops the handle of the task.
unfoldable pub execute : (c : SpawnCrate) → c.Future → c.Runtime → c.Runtime
execute c fut = c.spawn fut
