-- ===== src/Acl/Reading/Orders.antt =====
-- `load_from_file` against the rule sets of a file: neither the order of its rules nor how often
-- they are listed matters.
use mathlib.Core.Bool.{false≢true}
use mathlib.Core.Quot
use socks_hub.Prelude.{
  ℕ, ◌≡◌, refl, ap, ◌∙◌, sym, Bool, true, not, ◌||◌, ◌&&◌, List, [], ◌∷◌, any, all, arith, map,
}
use socks_hub.Text.{Text, is_dot, trim_end_matches}
use socks_hub.Text.Utf8.{as_bytes}
use socks_hub.Io.{Result, ok, err}
use socks_hub.Net.{IpAddr, v4}
use socks_hub.Acl.Externals.{Externals, RangeLaws, RegexLaws}
use socks_hub.Acl.Rules.{check_host_matched, check_ip_matched}
use socks_hub.Acl.AccessControl.{
  AccessControl, Section, outbound_block, bypass, proxy, load_from_file,
}
use socks_hub.Acl.AccessControl.Lines.{rules_of}
use socks_hub.Acl.Reading.{Rule, regexes}
use socks_hub.Acl.Reading.Sections.{names}
use socks_hub.Acl.Reading.Files.{
  builds, regex_matches, file_rules, file_mode, file_names, file_builds, is_ok, is_ok-ok,
  load_from_file_hosts, load_from_file_addresses, load_from_file_total,
}
use socks_hub.Acl.Reading.RuleSets.{
  SameRules, RuleSet, set_of, has_rule, on_regex, any-regexes, any-or, set_names, set_compiles,
  set_encloses,
}

module _ (x : Externals) where
  -- The rules of a section of a file, as a set.
  abbrev pub file_set : Section → List Text → RuleSet x
  file_set d lines = set_of (file_rules x d lines)

all-not : (p : Text → Bool) (ts : List Text) → all p ts ≡ not (any (λ t. not (p t)) ts)
all-not p [] = refl
all-not p (t ∷ ts) = ground (arith, all-not p ts)

module _ {x : Externals} {compiles : Text → Bool} {matches : Text → List ℕ → Bool}
    (laws : RegexLaws x compiles matches) where
  builds-set_compiles :
      (rs : List (Rule x)) → builds x (regexes rs) ≡ set_compiles x compiles (set_of rs)
  unfolding has_rule
  builds-set_compiles rs =
      laws.build-all (regexes rs)
      ∙ all-not compiles (regexes rs)
      ∙ ap not (any-regexes (λ t. not (compiles t)) rs)

  file_builds-set_compiles :
      (lines : List Text)
      → file_builds x lines ≡ (
          set_compiles x compiles (file_set x outbound_block lines)
          && set_compiles x compiles (file_set x bypass lines)
          && set_compiles x compiles (file_set x proxy lines))
  file_builds-set_compiles lines =
      rw
        (
          builds-set_compiles (file_rules x outbound_block lines),
          builds-set_compiles (file_rules x bypass lines),
          builds-set_compiles (file_rules x proxy lines),
        )
        refl

  pub regex_matches-any :
      (ts : List Text) (host : Text)
      → builds x ts ≡ true
      → regex_matches x ts host ≡ any (λ t. matches t (as_bytes host)) ts
  regex_matches-any ts host built = by_build (x.regex_set_build ts) refl
    where
      by_build :
          (r : Result x.RegexSet)
          → x.regex_set_build ts ≡ r
          → regex_matches x ts host ≡ any (λ t. matches t (as_bytes host)) ts
      by_build (ok s) e = rw (e, regex_matches) (laws.is_match-any ts s (as_bytes host) e)
      by_build (err e') e = absurd (false≢true (rw (e, builds) at built))

  file_names-set_names :
      (d : Section) (lines : List Text) (host : Text)
      → builds x (regexes (file_rules x d lines)) ≡ true
      → file_names x d lines host ≡ set_names x matches (file_set x d lines) host
  unfolding has_rule
  file_names-set_names d lines host built =
      let rs = file_rules x d lines in
      let bare = trim_end_matches is_dot host in
      ap (λ b. any (λ r. names r bare) rs || b)
        (regex_matches-any (regexes rs) bare built
          ∙ any-regexes (λ t. matches t (as_bytes bare)) rs)
      ∙ any-or (λ r. names r bare) (on_regex (λ t. matches t (as_bytes bare))) rs

  section-builds :
      (d : Section) (lines : List Text)
      → file_builds x lines ≡ true
      → builds x (regexes (file_rules x d lines)) ≡ true
  section-builds outbound_block lines h = ground arith
  section-builds bypass lines h = ground arith
  section-builds proxy lines h = ground arith

module _ {x : Externals} {contains4 : x.Net4 → ℕ → Bool} {contains6 : x.Net6 → ℕ → Bool}
    (laws4 : RangeLaws x.range4 contains4) (laws6 : RangeLaws x.range6 contains6)
    {compiles : Text → Bool} {matches : Text → List ℕ → Bool}
    (laws : RegexLaws x compiles matches) where
  -- What a loaded file does, from its rule sets alone.
  pub load_from_file-set_names :
      (open_file : Text → Result (List (Result Text))) (path : Text) (lines : List Text)
      (acl : AccessControl x) (d : Section) (host : Text) (ip : IpAddr)
      → open_file path ≡ ok (map ok lines)
      → load_from_file x open_file path ≡ ok acl
      → (check_host_matched (rules_of d acl) host ≡ set_names x matches (file_set x d lines) host)
        × (check_ip_matched (rules_of d acl) ip
            ≡ set_encloses x contains4 contains6 (file_set x d lines) ip)
        × (acl.mode ≡ file_mode x lines)
  unfolding has_rule
  load_from_file-set_names open_file path lines acl d host ip opened loaded =
      let (named, mode) = load_from_file_hosts open_file path lines acl d host opened loaded in
      let built = sym (load_from_file_total x open_file path lines opened) ∙ ap is_ok loaded in
      (
        named ∙ file_names-set_names laws d lines host (section-builds laws d lines built),
        load_from_file_addresses laws4 laws6 open_file path lines acl d ip opened loaded,
        mode,
      )

  builds-eq :
      (lines lines' : List Text)
      → ((d : Section) → file_set x d lines ≡ file_set x d lines')
      → file_builds x lines ≡ file_builds x lines'
  builds-eq lines lines' same =
      file_builds-set_compiles laws lines
      ∙ rw (same outbound_block, same bypass, same proxy) refl
      ∙ sym (file_builds-set_compiles laws lines')

  -- Over ranges and regular expressions that keep the crates' laws: two files whose sections have
  -- the same rules, in whatever order and however often, and that set the same mode: if one loads,
  -- so does the other, and their sections match the same hosts and the same addresses.
  pub load_from_file-order :
      (open_file : Text → Result (List (Result Text))) (path path' : Text)
      (lines lines' : List Text) (acl : AccessControl x)
      → open_file path ≡ ok (map ok lines)
      → open_file path' ≡ ok (map ok lines')
      → ((d : Section) → SameRules (file_rules x d lines) (file_rules x d lines'))
      → file_mode x lines ≡ file_mode x lines'
      → load_from_file x open_file path ≡ ok acl
      → (acl' : AccessControl x) × (load_from_file x open_file path' ≡ ok acl')
        × (acl'.mode ≡ acl.mode)
        × ((d : Section) (host : Text)
            → check_host_matched (rules_of d acl') host ≡ check_host_matched (rules_of d acl) host)
        × ((d : Section) (ip : IpAddr)
            → check_ip_matched (rules_of d acl') ip ≡ check_ip_matched (rules_of d acl) ip)
  load_from_file-order open_file path path' lines lines' acl opened opened' rules mode loaded =
      let (acl', loaded') = is_ok-ok (load_from_file x open_file path') built' in
      let one = λ (d : Section) (host : Text) (ip : IpAddr).
        load_from_file-set_names open_file path lines acl d host ip opened loaded in
      let two = λ (d : Section) (host : Text) (ip : IpAddr).
        load_from_file-set_names open_file path' lines' acl' d host ip opened' loaded' in
      (
        acl',
        loaded',
        (two proxy path (v4 0)).2 ∙ sym mode ∙ sym (one proxy path (v4 0)).2,
        λ d host.
            (two d host (v4 0)).0
            ∙ ap (λ rs. set_names x matches rs host) (sym (same d))
            ∙ sym (one d host (v4 0)).0,
        λ d ip.
            (two d path ip).1
            ∙ ap (λ rs. set_encloses x contains4 contains6 rs ip) (sym (same d))
            ∙ sym (one d path ip).1,
      )
    where
      same : (d : Section) → file_set x d lines ≡ file_set x d lines'
      same d = Quot.sound (rules d)

      built' : is_ok (load_from_file x open_file path') ≡ true
      built' =
          load_from_file_total x open_file path' lines' opened'
          ∙ sym (builds-eq lines lines' same)
          ∙ sym (load_from_file_total x open_file path lines opened)
          ∙ ap is_ok loaded
