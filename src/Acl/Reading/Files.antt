-- ===== src/Acl/Reading/Files.antt =====
-- `load_from_file` against what the file says: the rules that it compiles match what the lines of
-- their section name, and it fails exactly where regular expressions do not compile.
use mathlib.Core.Bool.{false≢true}
use socks_hub.Prelude.{
  ℕ, ◌≡◌, refl, sym, ap, ◌∙◌, Bool, true, false, ◌&&◌, ◌||◌, List, [], map, foldl, any, arith,
}
use socks_hub.Text.{Text, is_dot, trim_end_matches}
use socks_hub.Text.Utf8.{as_bytes}
use socks_hub.Io.{Result, ok, err}
use socks_hub.Net.{IpAddr}
use socks_hub.Acl.Externals.{Externals, RangeLaws}
use socks_hub.Acl.SubDomainsTree.Subdomain.{contains-empty}
use socks_hub.Acl.Rules.{Rules, new_rules, check_host_matched, check_ip_matched}
use socks_hub.Acl.ParsingRules.{ParsingRules, new_parsing_rules, compile_regex, into_rules}
use socks_hub.Acl.ParsingRules.Addresses.{holds}
use socks_hub.Acl.ParsingRules.Hosts.{knows}
use socks_hub.Acl.AccessControl.{
  AccessControl, LoadState, Mode, black_list, Section, outbound_block, bypass, proxy, section,
  start, load_lines, load_from_file, finish,
}
use socks_hub.Acl.AccessControl.Lines.{rules_of, finish-sections, load_from_file-parts}
use socks_hub.Acl.AccessControl.Addresses.{into_rules-holds}
use socks_hub.Acl.Reading.{Rule, read_line, rules_under, mode_under, regexes}
use socks_hub.Acl.Reading.Lines.{add_rule, obey, load_lines-eq}
use socks_hub.Acl.Reading.Sections.{
  mode-obey, section-obey, names, knows-foldl, regexes-foldl, encloses, holds-foldl, holds-new,
}

module _ (x : Externals) where
  -- Whether the crate compiles the expressions, and whether the compiled ones match.
  abbrev pub builds : List Text → Bool
  builds ts = elim (x.regex_set_build ts) [ ok s ↦ true | err e ↦ false ]

  abbrev pub regex_matches : List Text → Text → Bool
  regex_matches ts host = elim (x.regex_set_build ts) [
    | ok s ↦ x.regex_set_is_match s (as_bytes host)
    | err e ↦ false
  ]

  -- The rules of the section `d` of a file, and its mode. Lines before any header are of `bypass`.
  abbrev pub file_rules : Section → List Text → List (Rule x)
  file_rules d lines = rules_under d bypass (map (read_line x) lines)

  abbrev pub file_mode : List Text → Mode
  file_mode lines = mode_under black_list (map (read_line x) lines)

  -- Whether the section `d` of a file names a host.
  abbrev pub file_names : Section → List Text → Text → Bool
  file_names d lines host =
      any (λ r. names r (trim_end_matches is_dot host)) (file_rules d lines)
      || regex_matches (regexes (file_rules d lines)) (trim_end_matches is_dot host)

  abbrev pub file_builds : List Text → Bool
  file_builds lines =
      builds (regexes (file_rules outbound_block lines))
      && builds (regexes (file_rules bypass lines))
      && builds (regexes (file_rules proxy lines))

module _ {x : Externals} where
  into_rules-host :
      (p : ParsingRules x) (r : Rules x) (host : Text)
      → into_rules p ≡ ok r
      → check_host_matched r host ≡ (
          knows p (trim_end_matches is_dot host)
          || regex_matches x p.rules_regex (trim_end_matches is_dot host))
  unfolding into_rules new_rules compile_regex check_host_matched
  into_rules-host p r host e = ground arith

  -- The state behind the lines of a file.
  file_section :
      (d : Section) (t : LoadState x) (lines : List Text)
      → load_lines (start x) (map ok lines) ≡ ok t
      → section d t ≡ foldl add_rule (section d (start x)) (file_rules x d lines)
  file_section d t lines e =
      let same : foldl obey (start x) (map (read_line x) lines) ≡ t =
        ground (arith, load_lines-eq (start x) lines) in
      ap (section d) (sym same) ∙ section-obey d (start x) (map (read_line x) lines)

  empty_section : (d : Section) → (name : Text) × (section d (start x) ≡ new_parsing_rules x name)
  empty_section outbound_block = (_, refl)
  empty_section bypass = (_, refl)
  empty_section proxy = (_, refl)

  file-mode :
      (t : LoadState x) (lines : List Text)
      → load_lines (start x) (map ok lines) ≡ ok t
      → t.mode ≡ file_mode x lines
  file-mode t lines e =
      let same : foldl obey (start x) (map (read_line x) lines) ≡ t =
        ground (arith, load_lines-eq (start x) lines) in
      ap (λ s. s.mode) (sym same) ∙ mode-obey (start x) (map (read_line x) lines)

  file-knows :
      (d : Section) (t : LoadState x) (lines : List Text) (host : Text)
      → load_lines (start x) (map ok lines) ≡ ok t
      → (knows (section d t) host ≡ any (λ r. names r host) (file_rules x d lines))
        × ((section d t).rules_regex ≡ regexes (file_rules x d lines))
  file-knows d t lines host e =
      let (name, empty) = empty_section d in
      let built =
        file_section d t lines e ∙ ap (λ p. foldl add_rule p (file_rules x d lines)) empty in
      let p = new_parsing_rules x name in
      (
        ap (λ q. knows q host) built
            ∙ knows-foldl p (file_rules x d lines) host
            ∙ ap (λ b. b || any (λ r. names r host) (file_rules x d lines)) (contains-empty host),
        ap (λ q. q.rules_regex) built ∙ (regexes-foldl p (file_rules x d lines)).0,
      )

  -- The host rules of a loaded file, section by section: a host is matched exactly when a rule of
  -- the lines under the section's headers names it, or an expression of those lines matches it;
  -- and the mode is the last one that a line sets.
  pub load_from_file_hosts :
      (open_file : Text → Result (List (Result Text))) (path : Text) (lines : List Text)
      (acl : AccessControl x) (d : Section) (host : Text)
      → open_file path ≡ ok (map ok lines)
      → load_from_file x open_file path ≡ ok acl
      → (check_host_matched (rules_of d acl) host ≡ file_names x d lines host)
        × (acl.mode ≡ file_mode x lines)
  load_from_file_hosts open_file path lines acl d host opened loaded =
      let (t, all, done) = load_from_file-parts open_file path lines acl opened loaded in
      let (compiled, mode, _) = finish-sections path t acl done in
      let (known, sources) = file-knows d t lines (trim_end_matches is_dot host) all in
      (
        into_rules-host (section d t) (rules_of d acl) host (compiled d)
            ∙ ap
                (λ b. b || regex_matches x (section d t).rules_regex (trim_end_matches is_dot host))
                known
            ∙ ap
                (λ ts.
                  any (λ r. names r (trim_end_matches is_dot host)) (file_rules x d lines)
                  || regex_matches x ts (trim_end_matches is_dot host))
                sources,
        mode ∙ file-mode t lines all,
      )

  -- Where reading the lines and the ranges of `acl` leads.
  load_from_file-finish :
      (open_file : Text → Result (List (Result Text))) (path : Text) (lines : List Text)
      → open_file path ≡ ok (map ok lines)
      → load_from_file x open_file path
        ≡ finish path (foldl obey (start x) (map (read_line x) lines))
  unfolding load_from_file
  load_from_file-finish open_file path lines opened =
      rw (opened, load_lines-eq (start x) lines) refl

  abbrev pub is_ok : Result (AccessControl x) → Bool
  is_ok (ok acl) = true
  is_ok (err e) = false

  pub is_ok-ok :
      (r : Result (AccessControl x)) → is_ok r ≡ true → (acl : AccessControl x) × (r ≡ ok acl)
  is_ok-ok (ok acl) h = (acl, refl)
  is_ok-ok (err e) h = absurd (false≢true h)

  finish-is_ok :
      (path : Text) (t : LoadState x)
      → is_ok (finish path t) ≡ (
          builds x t.outbound_block.rules_regex
          && builds x t.bypass.rules_regex
          && builds x t.proxy.rules_regex)
  unfolding finish into_rules compile_regex
  finish-is_ok path t = ground arith

module _ (x : Externals) where
  -- A file whose lines can be read loads exactly when the regular expressions of each of its three
  -- sections compile, whatever else its lines are.
  pub load_from_file_total :
      (open_file : Text → Result (List (Result Text))) (path : Text) (lines : List Text)
      → open_file path ≡ ok (map ok lines)
      → is_ok (load_from_file x open_file path) ≡ file_builds x lines
  load_from_file_total open_file path lines opened =
      let t = foldl obey (start x) (map (read_line x) lines) in
      let sources = λ (d : Section). (file-knows d t lines [] (load_lines-eq (start x) lines)).1 in
      ap is_ok (load_from_file-finish open_file path lines opened)
      ∙ finish-is_ok path t
      ∙ rw (sources outbound_block, sources bypass, sources proxy) refl

module _ {x : Externals} {contains4 : x.Net4 → ℕ → Bool} {contains6 : x.Net6 → ℕ → Bool}
    (laws4 : RangeLaws x.range4 contains4) (laws6 : RangeLaws x.range6 contains6) where
  -- The address rules of a loaded file, section by section, where the address ranges keep the
  -- laws of iprange: an address is matched exactly when a network or an address in the lines
  -- under the section's headers encloses it.
  pub load_from_file_addresses :
      (open_file : Text → Result (List (Result Text))) (path : Text) (lines : List Text)
      (acl : AccessControl x) (d : Section) (ip : IpAddr)
      → open_file path ≡ ok (map ok lines)
      → load_from_file x open_file path ≡ ok acl
      → check_ip_matched (rules_of d acl) ip
        ≡ any (λ r. encloses x contains4 contains6 r ip) (file_rules x d lines)
  load_from_file_addresses open_file path lines acl d ip opened loaded =
      let (t, all, done) = load_from_file-parts open_file path lines acl opened loaded in
      let (name, empty) = empty_section d in
      let rules = file_rules x d lines in
      let built = file_section d t lines all ∙ ap (λ p. foldl add_rule p rules) empty in
      into_rules-holds laws4 laws6 (section d t) (rules_of d acl) ip
        ((finish-sections path t acl done).0 d)
      ∙ ap (λ q. holds q ip) built
      ∙ holds-foldl laws4 laws6 (new_parsing_rules x name) rules ip
      ∙ ap (λ b. b || any (λ r. encloses x contains4 contains6 r ip) rules)
          (holds-new x laws4 laws6 name ip)
