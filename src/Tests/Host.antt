-- ===== src/Tests/Host.antt =====
-- A C program that starts the server, and one that listens to its log.
use socks_hub.Prelude.{
  ◌≡◌, refl, ◌↔◌, true, false, [], Option, none, some, ◌∷◌, List, ℕ, if◌then◌else◌, length, ◌==◌,
}
use socks_hub.Text.{Text, codes, strip_prefix}
use socks_hub.Text.Utf8.{as_bytes, from_utf8}
use socks_hub.Io.{Result, ok}
use socks_hub.Net.{SocketAddr, v4}
use socks_hub.Credentials.{user_key}
use socks_hub.Config.{Config, http, ArgVerbosity, get_s5_credentials, default}
use socks_hub.Config.Builder.{source_type, verbosity, listen_addr, server_addr}
use socks_hub.Config.Verbosity.{Level, of_level, to_level_filter}
use socks_hub.Acl.Center.{init_center, must_proxied}
use socks_hub.Http2Socks.World.{local, empty}
use socks_hub.Http2Socks.Proxy.{proxy}
use socks_hub.Socks2Socks.Server.{no_auth, choose_auth}
use socks_hub.Ffi.{CCallback, runs, socks_hub_run, parsed}
use socks_hub.Ffi.Open.{IsShown, socks_hub_run_open}
use socks_hub.DumpLogger.{
  Static, Record, called, stuck, lock, enabled, do_dump_log, log, message, has_nul, is_some_text,
  unwrap_or_empty,
}
use socks_hub.DumpLogger.Messages.{IsLocked, log-called_iff}
use socks_hub.Tests.Plain.{plain}
use socks_hub.Tests.Toy.{toy_world, server}
use socks_hub.Tests.Http.{request}
use socks_hub.Tests.Socks.{center}

-- A parser that knows two addresses.
abbrev parse : Text → Option SocketAddr
parse t =
    if length t == 1
    then some server
    else (if length t == 2 then some (record { ip = v4 1; port = 80 }) else none)

abbrev no_file : Text → Result (List (Result Text))
no_file name = ok []

abbrev ccb : CCallback
ccb = record { function = some 5; ctx = 6 }

abbrev config : Config
config = record default {
  listen_addr = server;
  server_addr = record { ip = v4 1; port = 80 };
  verbosity = ArgVerbosity.info;
}

runs_lem :
    (socks_hub_run parse http (b'a' ∷ []) (b'a' ∷ b'b' ∷ []) ArgVerbosity.info (some 5) 6).1
    ≡ runs config ccb
unfolding socks_hub_run from_utf8 source_type verbosity listen_addr server_addr to_level_filter
runs_lem = refl

socks_hub_run_open_example :
    (parsed parse (b'a' ∷ []) ≡ some server)
    × (parsed parse (b'a' ∷ b'b' ∷ []) ≡ some (record { ip = v4 1; port = 80 }))
    × (http ≡ http)
    × (choose_auth config ≡ no_auth)
    × (((proxy toy_world center config request).1 ≡ ok (local 401 empty))
        ↔ IsShown toy_world request)
    × (user_key (get_s5_credentials config) ≡ none)
    × (must_proxied (init_center plain no_file config none) (codes "example.org") ≡ true)
socks_hub_run_open_example =
    socks_hub_run_open parse http (b'a' ∷ []) (b'a' ∷ b'b' ∷ []) ArgVerbosity.info (some 5) 6 config
      ccb toy_world plain no_file (codes "example.org") center request runs_lem

abbrev level_text : Level → Text
level_text l = codes "INFO"

-- Thread 2 is in the host's function.
abbrev static : Static
static = record { callback = some (record { function = some 5; ctx = 6 }); holder = some 2 }

abbrev entry : Record
entry = record {
  level = Level.info;
  module_path = some (codes "socks_hub::lib");
  args = codes "listening";
}

abbrev line : List ℕ
line = as_bytes (message level_text (codes "now") (codes "socks_hub") entry)

log_lem :
    message level_text (codes "now") (codes "socks_hub") entry
    ≡ codes "[now INFO  socks_hub::lib] - listening"
unfolding message
log_lem = refl

-- Thread 1 waits for it, and calls the function then; thread 2 itself would not come back.
waits :
    (log level_text (codes "now") (codes "socks_hub") 1 (some static.callback) static entry
      ≡ called 5 ArgVerbosity.info line 6)
    × (log level_text (codes "now") (codes "socks_hub") 2 (some static.callback) static entry
        ≡ stuck)
unfolding log enabled do_dump_log message lock strip_prefix of_level as_bytes
waits = (refl, refl)

log-called_iff_example :
    (log level_text (codes "now") (codes "socks_hub") 1 (some static.callback) static entry
      ≡ called 5 ArgVerbosity.info line 6)
    ↔ ((is_some_text (strip_prefix (codes "socks_hub") (unwrap_or_empty entry.module_path)) ≡ true)
        × (has_nul (message level_text (codes "now") (codes "socks_hub") entry) ≡ false)
        × IsLocked 1 (some static.callback) static (some (record { function = some 5; ctx = 6 }))
        × (ArgVerbosity.info ≡ of_level entry.level)
        × (line ≡ line))
log-called_iff_example =
    log-called_iff level_text (codes "now") (codes "socks_hub") 1 (some static.callback) static
      entry 5 ArgVerbosity.info line 6
