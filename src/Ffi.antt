-- ===== src/Ffi.antt =====
-- src/ffi.rs: the server for a C program. `SocketAddr`'s parser is a parameter; a C string is its
-- bytes before the zero byte. src/bin/socks-hub.rs is in `Program`.
pub mod Program
pub mod Open
use socks_hub.Prelude.{ℕ, Bool, true, false, List, [], ◌∷◌, Option, none, some}
use socks_hub.Text.{Text}
use socks_hub.Text.Utf8.{from_utf8}
use socks_hub.Io.{Result, ok, err}
use socks_hub.Net.{SocketAddr}
use socks_hub.Config.{Config, ProxyType, ArgVerbosity, default}
use socks_hub.Config.Builder.{source_type, verbosity, listen_addr, server_addr}
use socks_hub.Config.Verbosity.{LevelFilter, to_level_filter}
use socks_hub.Api.{Channel, Code, State, start_run, stop}

-- A function pointer and a context pointer, which are only passed on.
pub record CCallback : Type 0 where
  pub function : Option ℕ
  pub ctx : ℕ

-- `CCallback::call`: the function, its argument and its context, if there is a function.
unfoldable pub call : CCallback → ℕ → Option (ℕ × ℕ × ℕ)
call cb arg = elim cb.function [ none ↦ none | some f ↦ some (f, arg, cb.ctx) ]

-- The closure `cb`, for the address that the server listens on.
unfoldable pub announce : CCallback → SocketAddr → Option (ℕ × ℕ × ℕ)
unfolding call
announce ccb addr = call ccb addr.port

-- What `socks_hub_run` does: it sets the log level, and then panics, or runs a configuration with
-- the callback.
pub data Run : Type 0 where
  panics : Run
  runs : Config → CCallback → Run

-- `CStr::from_ptr(p).to_str().unwrap()` and `.parse().unwrap()`
abbrev pub parsed : (Text → Option SocketAddr) → List ℕ → Option SocketAddr
parsed parse bytes = elim (from_utf8 bytes) [ none ↦ none | some t ↦ parse t ]

unfoldable pub socks_hub_run :
    (Text → Option SocketAddr)
    → ProxyType
    → List ℕ
    → List ℕ
    → ArgVerbosity
    → Option ℕ
    → ℕ
    → LevelFilter × Run
unfolding source_type verbosity listen_addr server_addr
socks_hub_run parse source local_bytes server_bytes level callback ctx = (
  to_level_filter level,
  elim (parsed parse local_bytes) [
    | none ↦ panics
    | some local ↦ elim (parsed parse server_bytes) [
      | none ↦ panics
      | some server ↦
          let ccb : CCallback = record { function = callback; ctx = ctx } in
          runs
            (server_addr (listen_addr (verbosity (source_type default source) level) local) server)
            ccb
    ]
  ],
)

-- `socks_hub_stop`
unfoldable pub socks_hub_stop : Channel → Bool → State → Code × State
unfolding stop
socks_hub_stop ch runtime s = stop ch runtime s
