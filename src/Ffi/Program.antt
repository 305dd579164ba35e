-- ===== src/Ffi/Program.antt =====
-- src/bin/socks-hub.rs: the command line program. The `.env` file and the installation of the
-- logger, which crates do, are left out.
use socks_hub.Prelude.{◌≡◌, refl, ap, ◌∙◌, All, List, [], true, Option, none, some}
use socks_hub.Text.{Text}
use socks_hub.Io.{Result, ok, err}
use socks_hub.Net.{SocketAddr}
use socks_hub.Config.{Config}
use socks_hub.Config.Arguments.{
  Argument, arguments, IsGiven, written, values_of, Clap, ClapLaws, parse_args, parse_args-written,
}
use socks_hub.Config.Verbosity.{verbosity_text}
use socks_hub.Acl.Externals.{Externals}
use socks_hub.Listener.{Status, returned}
use socks_hub.Service.{Host, Happening, Centers, main_entry}

-- The default filter of the logger, from the verbosity.
unfoldable pub log_level : Config → Text
unfolding verbosity_text
log_level config = verbosity_text config.verbosity

module _ {Conn : Type 0} (x : Externals) (print : Config → Result Text) (host : Host Conn)
    (centers : Centers x) where
  -- What follows `parse_args`; `none` where the program has exited with clap's message.
  abbrev run_parsed : Result Config → Option (Centers x × (List (Happening Conn) × Status))
  run_parsed (err e) = none
  run_parsed (ok config) = elim (print config) [
    | err e ↦ some (centers, ([], returned (err e)))
    | ok json ↦ some (main_entry (record host { announces = true }) x config centers)
  ]

  -- `main`: `print` gives the configuration as JSON, which is only logged. The host gives a
  -- callback, and its events have a quit signal where the user interrupts the program.
  unfoldable pub main : Clap → List Text → Option (Centers x × (List (Happening Conn) × Status))
  unfolding main_entry parse_args
  main clap line = run_parsed (parse_args clap line)

  -- The program that is started by the command line of a configuration runs the server under it,
  -- and gives it a callback.
  main-written :
      {clap : Clap} {display : SocketAddr → Text}
      → ClapLaws clap display
      → (config : Config) (json : Text)
      → All (λ (a : Argument). IsGiven a (values_of display config a.long)) arguments
      → print config ≡ ok json
      → main clap (written arguments (values_of display config))
        ≡ some (main_entry (record host { announces = true }) x config centers)
  unfolding main
  main-written laws config json given printed =
      ap run_parsed (parse_args-written laws config given) ∙ rw (printed, run_parsed) refl
