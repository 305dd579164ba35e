-- ===== src/Tests/Arguments.antt =====
-- A command line that is parsed.
use socks_hub.Prelude.{
  or_else, ℕ, ◌≡◌, refl, ap, ◌∙◌, Bool, true, not, List, [], ◌∷◌, ◌++◌, Option, none, some, All,
  any, all, ◌==◌, if◌then◌else◌, arith,
}
use socks_hub.Text.{Text, codes, eqb, strip_prefix}
use socks_hub.Text.Equality.{eqb_iff}
use socks_hub.Io.{Result, ok, err, invalid_input}
use socks_hub.Net.{SocketAddr, IpAddr, v4, v6}
use socks_hub.Config.{
  Config, default, ProxyType, http, socks5, ArgVerbosity, off, error, warn, info, debug, trace,
  proxy_type_text,
}
use socks_hub.Config.Arguments.{
  Argument, arguments, Clap, ClapLaws, parse_args, token, written, IsGiven, values_of,
  parse_args-written,
}
use socks_hub.Config.Verbosity.{verbosity_text}

-- The value behind `--name=` in the first token that has one.
abbrev find_value : Text → List Text → Option Text
find_value long [] = none
find_value long (t ∷ ts) =
    or_else (strip_prefix (codes "--" ++ (long ++ (b'=' ∷ []))) t) (find_value long ts)

abbrev default_of : Text → List Argument → Option Text
default_of long [] = none
default_of long (a ∷ args) =
    let rest = default_of long args in if eqb a.long long then a.default_value else rest

abbrev no_equals : Text → Bool
no_equals s = all (λ c. not (c == b'=')) s

-- A token is found under its own name alone.
strip_prefix-name :
    (s t v : Text)
    → no_equals s ≡ true
    → no_equals t ≡ true
    → strip_prefix (s ++ (b'=' ∷ [])) (t ++ (b'=' ∷ v)) ≡ (if eqb t s then some v else none)
unfolding strip_prefix eqb
strip_prefix-name [] [] v hs ht = refl
strip_prefix-name [] (b ∷ t) v hs ht = ground arith
strip_prefix-name (a ∷ s) [] v hs ht = ground arith
strip_prefix-name (a ∷ s) (b ∷ t) v hs ht = ground (arith, strip_prefix-name s t v)

abbrev has_name : Text → List Argument → Bool
has_name long args = any (λ (a : Argument). eqb a.long long) args

abbrev are_plain : List Argument → Bool
are_plain args = all (λ (a : Argument). no_equals a.long) args

find_value-written :
    (values : Text → Option Text) (long : Text) (args : List Argument)
    → no_equals long ≡ true
    → are_plain args ≡ true
    → find_value long (written args values) ≡ (if has_name long args then values long else none)
unfolding strip_prefix
find_value-written values long [] hl ha = refl
find_value-written values long (a ∷ args) hl ha =
    go (values a.long) refl (find_value-written values long args hl (ground arith))
  where
    go :
        (o : Option Text)
        → values a.long ≡ o
        → find_value long (written args values) ≡ (if has_name long args then values long else none)
        → find_value long (token a.long o ++ written args values)
          ≡ (if has_name long (a ∷ args) then values long else none)
    go none e rest = ground (arith, rest, (eqb_iff a.long long).0)
    go (some v) e rest =
        ground
          (arith, rest, strip_prefix-name long a.long v hl (ground arith), (eqb_iff a.long long).0)

-- A named argument has its value, or its default.
found :
    (values : Text → Option Text) (long : Text) (default_value : Option Text)
    → no_equals long ≡ true
    → has_name long arguments ≡ true
    → or_else (find_value long (written arguments values)) default_value
      ≡ or_else (values long) default_value
unfolding eqb
found values long default_value plain named =
    ap (λ o. or_else o default_value)
      (find_value-written values long arguments plain refl ∙ rw named refl)

-- A parser of texts that are one of a few.
abbrev one_of {ℓ} : {A : Type ℓ} → (A → Text) → List A → Text → Result A
one_of name [] t = err (record { kind = invalid_input; message = t })
one_of name (a ∷ more) t = let rest = one_of name more t in if eqb (name a) t then ok a else rest

-- An address is written as its port and its number.
abbrev display : SocketAddr → Text
display addr = addr.port ∷ elim addr.ip [ v4 a ↦ 4 ∷ a ∷ [] | v6 a ↦ 6 ∷ a ∷ [] ]

abbrev parse_ip : ℕ → ℕ → IpAddr
parse_ip version a = if version == 4 then v4 a else v6 a

abbrev parse_addr : Text → Result SocketAddr
parse_addr (port ∷ version ∷ a ∷ []) = ok (record { ip = parse_ip version a; port = port })
parse_addr t = err (record { kind = invalid_input; message = t })

abbrev clap : Clap
clap = record {
  matches = λ args line. ok (λ long. or_else (find_value long line) (default_of long args));
  proxy_type = one_of proxy_type_text (http ∷ socks5 ∷ []);
  arg_verbosity = one_of verbosity_text (off ∷ error ∷ warn ∷ info ∷ debug ∷ trace ∷ []);
  socket_addr = parse_addr;
}

proxy_type-text_lem : (t : ProxyType) → clap.proxy_type (proxy_type_text t) ≡ ok t
unfolding proxy_type_text eqb
proxy_type-text_lem http = refl
proxy_type-text_lem socks5 = refl

verbosity-text_lem : (v : ArgVerbosity) → clap.arg_verbosity (verbosity_text v) ≡ ok v
unfolding verbosity_text eqb
verbosity-text_lem off = refl
verbosity-text_lem error = refl
verbosity-text_lem warn = refl
verbosity-text_lem info = refl
verbosity-text_lem debug = refl
verbosity-text_lem trace = refl

display_lem : (addr : SocketAddr) → parse_addr (display addr) ≡ ok addr
display_lem addr = go addr.ip
  where
    go :
        (ip : IpAddr)
        → parse_addr (display (record { ip = ip; port = addr.port }))
          ≡ ok (record { ip = ip; port = addr.port })
    go (v4 a) = refl
    go (v6 a) = refl

matches-written_lem :
    (values : Text → Option Text)
    → All (λ (a : Argument). IsGiven a (values a.long)) arguments
    → (m : Text → Option Text) × (clap.matches arguments (written arguments values) ≡ ok m)
      × All (λ (a : Argument). m a.long ≡ or_else (values a.long) a.default_value) arguments
unfolding eqb
matches-written_lem values given = (
  _,
  refl,
  (
    found values _ _ refl refl,
    (
      found values _ _ refl refl,
      (
        found values _ _ refl refl,
        (
          found values _ _ refl refl,
          (
            found values _ _ refl refl,
            (
              found values _ _ refl refl,
              (
                found values _ _ refl refl,
                (found values _ _ refl refl, (found values _ _ refl refl, tt)),
              ),
            ),
          ),
        ),
      ),
    ),
  ),
)

clap_laws : ClapLaws clap display
clap_laws = record {
  matches-written = matches-written_lem;
  proxy_type-text = proxy_type-text_lem;
  arg_verbosity-text = verbosity-text_lem;
  socket_addr-display = display_lem;
}

abbrev config : Config
config = record default {
  source_type = socks5;
  username = some (codes "ann");
  s5_password = some (codes "pw=1");
  acl_file = some (codes "list.acl");
}

given_lem : All (λ (a : Argument). IsGiven a (values_of display config a.long)) arguments
unfolding eqb proxy_type_text verbosity_text
given_lem = ground arith

parse_args-written_example :
    parse_args clap (written arguments (values_of display config)) ≡ ok config
parse_args-written_example = parse_args-written clap_laws config given_lem
