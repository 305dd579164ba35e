-- ===== src/DumpLogger.antt =====
-- src/dump_logger.rs: log records as text for a callback of the host program. The level's name, the
-- time and the formatted arguments of a record are parameters.
pub mod Messages
use socks_hub.Prelude.{
  ℕ, zero, suc, ◌-◌, Bool, true, false, not, ◌&&◌, List, [], ◌∷◌, ◌++◌, Option, none, some,
  if◌then◌else◌, any, leb, ◌==◌, length,
}
use socks_hub.Text.{Text, codes, strip_prefix}
use socks_hub.Text.Utf8.{as_bytes}
use socks_hub.Config.{ArgVerbosity}
use socks_hub.Config.Verbosity.{Level, of_level}

-- A function pointer and a context pointer, which are only passed on.
pub record DumpCallback : Type 0 where
  pub function : Option ℕ
  pub ctx : ℕ

-- `DUMP_CALLBACK`, and the thread that holds its mutex, if one does. A thread holds it while the
-- host's function runs in it.
pub record Static : Type 0 where
  pub callback : Option DumpCallback
  pub holder : Option ℕ

-- `log::Record`
pub record Record : Type 0 where
  pub level : Level
  pub module_path : Option Text
  pub args : Text

-- What comes of a call: nothing, a call of the host's function, a panic, or no return from `lock`.
pub data Outcome : Type 0 where
  quiet : Outcome
  called : ℕ → ArgVerbosity → List ℕ → ℕ → Outcome
  panicked : Outcome
  stuck : Outcome

-- `DUMP_CALLBACK.lock().unwrap()` in a thread: what the static holds when the thread gets the
-- mutex. A thread waits while another one has it; `released` is what the static then holds, or
-- `none` if the mutex is never let go. A thread that has it already does not get it again: the
-- standard library documents a deadlock or a panic. The mutex is not poisoned, as no code that
-- holds it panics.
unfoldable pub lock : ℕ → Option (Option DumpCallback) → Static → Option (Option DumpCallback)
lock thread released s = elim s.holder [
  | none ↦ some s.callback
  | some t ↦ if t == thread then none else released
]

-- `socks_hub_set_log_callback`; `none` where `lock` does not return.
unfoldable pub socks_hub_set_log_callback :
    ℕ → Option (Option DumpCallback) → Option ℕ → ℕ → Static → Option Static
unfolding lock
socks_hub_set_log_callback thread released callback ctx s = elim (lock thread released s) [
  | none ↦ none
  | some old ↦
      some (record { callback = some (record { function = callback; ctx = ctx }); holder = none })
]

-- `flush`
unfoldable pub flush : Static → Static
flush s = s

-- The order of `log::Level`.
abbrev rank : Level → ℕ
rank Level.error = 1
rank Level.warn = 2
rank Level.info = 3
rank Level.debug = 4
rank Level.trace = 5

-- `enabled`
unfoldable pub enabled : Level → Bool
enabled l = leb (rank l) (rank Level.trace)

abbrev pub unwrap_or_empty : Option Text → Text
unwrap_or_empty none = []
unwrap_or_empty (some t) = t

abbrev spaces : ℕ → Text
spaces zero = []
spaces (suc n) = b' ' ∷ spaces n

-- `{:<5}`
abbrev pub pad5 : Text → Text
pad5 t = t ++ spaces (5 - length t)

abbrev pub is_some_text : Option Text → Bool
is_some_text none = false
is_some_text (some t) = true

-- `CString::new` fails on a text with a zero byte.
abbrev pub has_nul : Text → Bool
has_nul t = any (λ c. c == 0) t

abbrev call_back : Option DumpCallback → ArgVerbosity → Text → Outcome
call_back none level text = quiet
call_back (some cb) level text = elim cb.function [
  | none ↦ quiet
  | some f ↦ called f level (as_bytes text) cb.ctx
]

-- `level_text` is the display of a level, `now` the time in the format of the source, and
-- `crate_name` the crate's name at compile time.
module _ (level_text : Level → Text) (now crate_name : Text) where
  -- The `format!` of `do_dump_log`.
  unfoldable pub message : Record → Text
  message r =
      codes "["
      ++ (now
          ++ (codes " "
              ++ (pad5 (level_text r.level)
                  ++ (codes " " ++ (unwrap_or_empty r.module_path ++ (codes "] - " ++ r.args))))))

  -- The lock is taken once the message has been made; the host's function is called with it held.
  unfoldable pub do_dump_log : ℕ → Option (Option DumpCallback) → Static → Record → Outcome
  unfolding message lock
  do_dump_log thread released s r =
      if has_nul (message r) then panicked else elim (lock thread released s) [
        | none ↦ stuck
        | some callback ↦ call_back callback (of_level r.level) (message r)
      ]

  -- `log`
  unfoldable pub log : ℕ → Option (Option DumpCallback) → Static → Record → Outcome
  unfolding enabled do_dump_log
  log thread released s r =
      if enabled r.level
      then (if is_some_text (strip_prefix crate_name (unwrap_or_empty r.module_path))
          then do_dump_log thread released s r
          else quiet)
      else quiet
