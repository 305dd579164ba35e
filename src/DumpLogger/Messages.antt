-- ===== src/DumpLogger/Messages.antt =====
-- When the host program's function is called, and with what.
use socks_hub.Prelude.{ℕ, ◌≡◌, ◌≢◌, ◌↔◌, ◌⊎◌, true, false, List, none, some, Option, arith}
use socks_hub.Text.{Text, strip_prefix}
use socks_hub.Text.Utf8.{as_bytes}
use socks_hub.Config.{ArgVerbosity}
use socks_hub.Config.Verbosity.{Level, of_level}
use socks_hub.DumpLogger.{
  DumpCallback, Static, lock, Record, called, message, has_nul, do_dump_log, log, enabled,
  unwrap_or_empty, is_some_text,
}

-- A thread gets the mutex, with this in the static: nobody has it, or another thread lets it go.
abbrev pub IsLocked : ℕ → Option (Option DumpCallback) → Static → Option DumpCallback → Type 0
IsLocked thread released s callback =
    ((s.holder ≡ none) × (s.callback ≡ callback))
    ⊎ ((t : ℕ) × (s.holder ≡ some t) × (t ≢ thread) × (released ≡ some callback))

lock_iff :
    (thread : ℕ) (released : Option (Option DumpCallback)) (s : Static)
    (callback : Option DumpCallback)
    → (lock thread released s ≡ some callback) ↔ IsLocked thread released s callback
unfolding lock
lock_iff thread released s callback = ground arith

module _ (level_text : Level → Text) (now crate_name : Text) where
  -- The host's function is called for a record exactly when the record's module path begins with
  -- the crate's name, its message has no zero byte, and the thread gets the mutex, at once where it
  -- is free, or after another thread that has it lets it go, with the function then set; and it is
  -- called with the record's level, the message's bytes and the host's own pointer. A thread that
  -- logs while it holds the mutex, as in the host's function, does not get it.
  pub log-called_iff :
      (thread : ℕ) (released : Option (Option DumpCallback)) (s : Static) (r : Record) (f : ℕ)
      (level : ArgVerbosity) (bytes : List ℕ) (ctx : ℕ)
      → (log level_text now crate_name thread released s r ≡ called f level bytes ctx) ↔ (
          (is_some_text (strip_prefix crate_name (unwrap_or_empty r.module_path)) ≡ true)
          × (has_nul (message level_text now crate_name r) ≡ false)
          × IsLocked thread released s (some (record { function = some f; ctx = ctx }))
          × (level ≡ of_level r.level)
          × (bytes ≡ as_bytes (message level_text now crate_name r)))
  unfolding log enabled do_dump_log
  log-called_iff thread released s r f level bytes ctx =
      let locked = lock_iff thread released s (some (record { function = some f; ctx = ctx })) in
      ground arith
