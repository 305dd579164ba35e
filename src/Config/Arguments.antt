-- ===== src/Config/Arguments.antt =====
-- The command line of src/config.rs: the attributes of `Config` as a list of arguments, and
-- `parse_args`. clap is a parameter.
use socks_hub.Prelude.{
  or_else, ℕ, ◌≡◌, ◌≢◌, refl, Bool, true, false, List, [], ◌∷◌, ◌++◌, flat_map, Option, none, some,
  All, if◌then◌else◌,
}
use socks_hub.Text.{Text, codes, eqb}
use socks_hub.Io.{Error, invalid_input, Result, ok, err, ◌>>=◌}
use socks_hub.Net.{SocketAddr}
use socks_hub.Config.{Config, ProxyType, ArgVerbosity, proxy_type_text}
use socks_hub.Config.Verbosity.{verbosity_text}

-- `#[arg(...)]`: the long name, which clap makes from the field's name, the short one, if there is
-- one, and the default; an argument whose type is no `Option` is required unless it has a default.
pub record Argument : Type 0 where
  pub long : Text
  pub short : Option ℕ
  pub required : Bool
  pub default_value : Option Text

abbrev argument : Text → Option ℕ → Argument
argument long short = record { long = long; short = short; required = false; default_value = none }

-- The fields of `Config`.
abbrev pub arguments : List Argument
arguments =
    record (argument (codes "source-type") (some b't')) { default_value = some (codes "http") }
    ∷ record (argument (codes "listen-addr") (some b'l')) { required = true }
    ∷ argument (codes "username") (some b'u')
    ∷ argument (codes "password") (some b'p')
    ∷ record (argument (codes "server-addr") (some b's')) { required = true }
    ∷ argument (codes "s5-username") none
    ∷ argument (codes "s5-password") none
    ∷ argument (codes "acl-file") (some b'a')
    ∷ record (argument (codes "verbosity") (some b'v')) { default_value = some (codes "info") }
    ∷ []

-- clap: the values of the arguments by their long names, for a command line that it takes, and
-- otherwise its message; and the parsers of the values.
pub record Clap : Type 0 where
  pub matches : List Argument → List Text → Result (Text → Option Text)
  pub proxy_type : Text → Result ProxyType
  pub arg_verbosity : Text → Result ArgVerbosity
  pub socket_addr : Text → Result SocketAddr

abbrev missing : Error
missing = record { kind = invalid_input; message = [] }

-- The value of a field, or of one that is an `Option`.
abbrev field {ℓ} : {A : Type ℓ} → (Text → Result A) → Option Text → Result A
field parse none = err missing
field parse (some t) = parse t

-- `parse_args`; after an error clap writes its message, and the program exits.
unfoldable pub parse_args : Clap → List Text → Result Config
parse_args clap line = do
  m ← clap.matches arguments line
  source_type ← field clap.proxy_type (m (codes "source-type"))
  listen_addr ← field clap.socket_addr (m (codes "listen-addr"))
  server_addr ← field clap.socket_addr (m (codes "server-addr"))
  verbosity ← field clap.arg_verbosity (m (codes "verbosity"))
  ok (record {
    source_type = source_type;
    listen_addr = listen_addr;
    username = m (codes "username");
    password = m (codes "password");
    server_addr = server_addr;
    s5_username = m (codes "s5-username");
    s5_password = m (codes "s5-password");
    acl_file = m (codes "acl-file");
    verbosity = verbosity;
  })

-- `--name=value` for each argument that is given.
abbrev pub token : Text → Option Text → List Text
token long none = []
token long (some v) = (codes "--" ++ (long ++ (b'=' ∷ v))) ∷ []

abbrev pub written : List Argument → (Text → Option Text) → List Text
written args values = flat_map (λ (a : Argument). token a.long (values a.long)) args

-- A required argument is given, and none is given an empty value.
abbrev pub IsGiven : Argument → Option Text → Type 0
IsGiven a none = a.required ≡ false
IsGiven a (some v) = v ≢ []

-- What clap documents: `--name=value` gives an argument a value, and without one it has its
-- default; the values of an enumeration are its variants' names in lower case. And the standard
-- library parses the address that it displays.
pub record ClapLaws (clap : Clap) (display : SocketAddr → Text) : Type 0 where
  pub matches-written :
      (values : Text → Option Text)
      → All (λ (a : Argument). IsGiven a (values a.long)) arguments
      → (m : Text → Option Text) × (clap.matches arguments (written arguments values) ≡ ok m)
        × All (λ (a : Argument). m a.long ≡ or_else (values a.long) a.default_value) arguments
  pub proxy_type-text : (t : ProxyType) → clap.proxy_type (proxy_type_text t) ≡ ok t
  pub arg_verbosity-text : (v : ArgVerbosity) → clap.arg_verbosity (verbosity_text v) ≡ ok v
  pub socket_addr-display : (addr : SocketAddr) → clap.socket_addr (display addr) ≡ ok addr

module _ (display : SocketAddr → Text) (config : Config) where
  -- A configuration as values of the arguments.
  abbrev pub values_of : Text → Option Text
  values_of long =
      if eqb long (codes "source-type")
      then some (proxy_type_text config.source_type)
      else if eqb long (codes "listen-addr")
      then some (display config.listen_addr)
      else if eqb long (codes "username")
      then config.username
      else if eqb long (codes "password")
      then config.password
      else if eqb long (codes "server-addr")
      then some (display config.server_addr)
      else if eqb long (codes "s5-username")
      then config.s5_username
      else if eqb long (codes "s5-password")
      then config.s5_password
      else if eqb long (codes "acl-file")
      then config.acl_file
      else if eqb long (codes "verbosity")
      then some (verbosity_text config.verbosity)
      else none

or_else-none : (o : Option Text) → or_else o none ≡ o
or_else-none none = refl
or_else-none (some t) = refl

-- A configuration that is written as a command line, each argument as `--name=value`, is what the
-- program then parses: each value comes to its own field, and what is left out is `None`. This
-- holds over a clap and an address parser as they are documented, for a configuration whose texts
-- and addresses, where they are there, are not written as the empty text.
pub parse_args-written :
    {clap : Clap} {display : SocketAddr → Text}
    → ClapLaws clap display
    → (config : Config)
    → All (λ (a : Argument). IsGiven a (values_of display config a.long)) arguments
    → parse_args clap (written arguments (values_of display config)) ≡ ok config
unfolding parse_args eqb
parse_args-written {clap} {display} laws config given =
    let (m, taken, values) = laws.matches-written (values_of display config) given in
    rw
      (
        taken,
        values.0,
        values.1.0,
        values.1.1.0,
        values.1.1.1.0,
        values.1.1.1.1.0,
        values.1.1.1.1.1.0,
        values.1.1.1.1.1.1.0,
        values.1.1.1.1.1.1.1.0,
        values.1.1.1.1.1.1.1.1.0,
        laws.proxy_type-text config.source_type,
        laws.socket_addr-display config.listen_addr,
        laws.socket_addr-display config.server_addr,
        laws.arg_verbosity-text config.verbosity,
        or_else-none config.username,
        or_else-none config.password,
        or_else-none config.s5_username,
        or_else-none config.s5_password,
        or_else-none config.acl_file,
      )
      refl
