-- ===== src/Acl/Reading/Writing.antt =====
-- An ACL file written from its mode and its rules, in the lines that `load_from_file` of
-- src/acl/mod.rs reads, and what it loads as. Its sections and rules are those that the comment on
-- `AccessControl` documents; its mode line is the one that sets the mode in the code, which that
-- comment gives to the other mode.
use mathlib.Core.List.{map-append, append-nil}
use socks_hub.Prelude.{
  ℕ, ◌≡◌, refl, ap, ◌∙◌, Bool, true, false, ◌||◌, List, [], ◌∷◌, ◌++◌, any, arith, map, none,
  if◌then◌else◌, All,
}
use socks_hub.Text.{
  Text, codes, eqb, is_ascii, trim, starts_with_char, strip_prefix, is_dot, trim_end_matches,
}
use socks_hub.Acl.AccessControl.{
  AccessControl, load_from_file, Mode, black_list, white_list, Section, outbound_block, bypass,
  proxy,
}
use socks_hub.Io.{Result, ok}
use socks_hub.Acl.Externals.{Externals, RegexLaws}
use socks_hub.Acl.Rules.{check_host_matched}
use socks_hub.Acl.AccessControl.Lines.{rules_of}
use socks_hub.Acl.Reading.Sections.{names}
use socks_hub.Acl.Reading.Orders.{regex_matches-any}
use socks_hub.Acl.Reading.Files.{
  builds, file_rules, file_names, is_ok, is_ok-ok, load_from_file_hosts, load_from_file_total,
  regex_matches,
}
use socks_hub.Acl.Reading.{
  Rule, tree, set, network, regex, Directive, add, enter, set_mode, read_line, read_trimmed,
  rules_under, mode_under, regexes, same_section,
}

strip_prefix-set :
    (t : Text) → starts_with_char b'|' t ≡ false → strip_prefix (codes "||") (b'|' ∷ t) ≡ none
unfolding strip_prefix
strip_prefix-set [] h = refl
strip_prefix-set (c ∷ t) h = ground arith

module _ {x : Externals} where
  -- `||` in front of a domain with its subdomains, `|` in front of a single name.
  abbrev pub write_rule : Rule x → Text
  write_rule (tree t) = b'|' ∷ b'|' ∷ t
  write_rule (set t) = b'|' ∷ t
  write_rule (network n) = []
  write_rule (regex t) = []

  -- A name can be written if it is ASCII and `trim` leaves its line as it is, a single name only if
  -- it does not begin with a bar.
  abbrev pub IsWritable : Rule x → Type 0
  IsWritable (tree t) = (is_ascii t ≡ true) × (trim (b'|' ∷ b'|' ∷ t) ≡ b'|' ∷ b'|' ∷ t)
  IsWritable (set t) =
      (is_ascii t ≡ true) × (trim (b'|' ∷ t) ≡ b'|' ∷ t) × (starts_with_char b'|' t ≡ false)
  IsWritable (network n) = ⊥
  IsWritable (regex t) = ⊥

  read_trimmed-tree :
      (t : Text) → is_ascii t ≡ true → read_trimmed x (b'|' ∷ b'|' ∷ t) ≡ add (tree t)
  unfolding is_ascii strip_prefix
  read_trimmed-tree t ascii = rw ascii refl

  read_trimmed-set :
      (t : Text)
      → is_ascii t ≡ true
      → starts_with_char b'|' t ≡ false
      → read_trimmed x (b'|' ∷ t) ≡ add (set t)
  unfolding is_ascii strip_prefix
  read_trimmed-set t ascii plain = rw (ascii, strip_prefix-set t plain) refl

  read_line-write_rule : (r : Rule x) → IsWritable r → read_line x (write_rule r) ≡ add r
  unfolding read_line
  read_line-write_rule (tree t) (ascii, same) = ap (read_trimmed x) same ∙ read_trimmed-tree t ascii
  read_line-write_rule (set t) (ascii, same, plain) =
      ap (read_trimmed x) same ∙ read_trimmed-set t ascii plain
  read_line-write_rule (network n) h = absurd h
  read_line-write_rule (regex t) h = absurd h

  read_line-write_rules :
      (rs : List (Rule x)) → All IsWritable rs → map (read_line x) (map write_rule rs) ≡ map add rs
  read_line-write_rules [] h = refl
  read_line-write_rules (r ∷ rs) h =
      rw (read_line-write_rule r h.0, read_line-write_rules rs h.1) refl

-- The line that begins a section, and the one that sets the mode.
abbrev pub header : Section → Text
header outbound_block = codes "[outbound_block_list]"
header bypass = codes "[bypass_list]"
header proxy = codes "[proxy_list]"

abbrev pub write_mode : Mode → Text
write_mode black_list = codes "[proxy_all]"
write_mode white_list = codes "[bypass_all]"

module _ {x : Externals} where
  -- A section in front of further lines.
  abbrev pub write_section : Section → List (Rule x) → List Text → List Text
  write_section d rs rest = header d ∷ (map write_rule rs ++ rest)

  -- The lines of a file with this mode and these rules.
  abbrev pub write_file : Mode → (Section → List (Rule x)) → List Text
  write_file m rules =
      write_mode m
      ∷ write_section outbound_block (rules outbound_block)
          (write_section bypass (rules bypass) (write_section proxy (rules proxy) []))

  read_line-header : (d : Section) → read_line x (header d) ≡ enter d
  unfolding read_line is_ascii strip_prefix trim eqb
  read_line-header outbound_block = refl
  read_line-header bypass = refl
  read_line-header proxy = refl

  read_line-write_mode : (m : Mode) → read_line x (write_mode m) ≡ set_mode m
  unfolding read_line is_ascii strip_prefix trim eqb
  read_line-write_mode black_list = refl
  read_line-write_mode white_list = refl

  rules_under-add :
      (d c : Section) (rs : List (Rule x)) (ds : List (Directive x))
      → rules_under d c (map add rs ++ ds)
        ≡ (if same_section d c then rs else []) ++ rules_under d c ds
  rules_under-add d c [] ds = ground arith
  rules_under-add d c (r ∷ rs) ds = ground (arith, rules_under-add d c rs ds)

  rules_under-all :
      (d c : Section) (rs : List (Rule x))
      → rules_under d c (map add rs) ≡ (if same_section d c then rs else [])
  rules_under-all d c [] = ground arith
  rules_under-all d c (r ∷ rs) = ground (arith, rules_under-all d c rs)

  mode_under-add :
      (m : Mode) (rs : List (Rule x)) (ds : List (Directive x))
      → mode_under m (map add rs ++ ds) ≡ mode_under m ds
  mode_under-add m [] ds = refl
  mode_under-add m (r ∷ rs) ds = mode_under-add m rs ds

  -- What the lines of a section say, and those of a file.
  abbrev say_section : Section → List (Rule x) → List (Directive x) → List (Directive x)
  say_section d rs rest = enter d ∷ (map add rs ++ rest)

  abbrev say_file : Mode → (Section → List (Rule x)) → List (Directive x)
  say_file m rules =
      set_mode m
      ∷ say_section outbound_block (rules outbound_block)
          (say_section bypass (rules bypass) (say_section proxy (rules proxy) []))

  read_line-write_section :
      (d : Section) (rs : List (Rule x)) (rest : List Text) (ds : List (Directive x))
      → All IsWritable rs
      → map (read_line x) rest ≡ ds
      → map (read_line x) (write_section d rs rest) ≡ say_section d rs ds
  read_line-write_section d rs rest ds writable said =
      ap (λ ls. read_line x (header d) ∷ ls) (map-append (read_line x) (map write_rule rs) rest)
      ∙ rw (read_line-header d, read_line-write_rules rs writable, said) refl

  read_line-write_file :
      (m : Mode) (rules : Section → List (Rule x))
      → ((d : Section) → All IsWritable (rules d))
      → map (read_line x) (write_file m rules) ≡ say_file m rules
  read_line-write_file m rules writable = rw (read_line-write_mode m) (
      ap (λ ds. set_mode m ∷ ds)
        (read_line-write_section outbound_block (rules outbound_block) _ _ (writable outbound_block)
          (read_line-write_section bypass (rules bypass) _ _ (writable bypass)
            (read_line-write_section proxy (rules proxy) _ _ (writable proxy) refl))))

  rules_under-say_file :
      (m : Mode) (rules : Section → List (Rule x)) (d : Section)
      → rules_under d bypass (say_file m rules) ≡ rules d
  rules_under-say_file m rules outbound_block = simp (rules_under-add, rules_under-all, append-nil)
  rules_under-say_file m rules bypass = simp (rules_under-add, rules_under-all, append-nil)
  rules_under-say_file m rules proxy = simp (rules_under-add, rules_under-all, append-nil)

  mode_under-say_file :
      (m : Mode) (rules : Section → List (Rule x)) → mode_under black_list (say_file m rules) ≡ m
  mode_under-say_file m rules = simp mode_under-add

  -- Plain rules have no regular expression.
  regexes-IsWritable : (rs : List (Rule x)) → All IsWritable rs → regexes rs ≡ []
  regexes-IsWritable [] h = refl
  regexes-IsWritable (tree t ∷ rs) h = regexes-IsWritable rs h.1
  regexes-IsWritable (set t ∷ rs) h = regexes-IsWritable rs h.1
  regexes-IsWritable (network n ∷ rs) h = absurd h.0
  regexes-IsWritable (regex t ∷ rs) h = absurd h.0

module _ {x : Externals} {compiles : Text → Bool} {matches : Text → List ℕ → Bool}
    (laws : RegexLaws x compiles matches) (open_file : Text → Result (List (Result Text)))
    (path : Text) (m : Mode) (rules : Section → List (Rule x)) where
  -- A file that is written from a mode and from names for each section, each with its subdomains
  -- (`||name`) or single (`|name`), loads; it then has that mode, and each section matches exactly
  -- the hosts that its own names match, trailing dots of the host aside. This holds over a regex
  -- crate that keeps its laws, where every name is ASCII, `trim` leaves every name's line as it is,
  -- and no single name begins with a bar, for its line would be read as that of a name with its
  -- subdomains.
  pub load_from_file-write_file :
      open_file path ≡ ok (map ok (write_file m rules))
      → ((d : Section) → All IsWritable (rules d))
      → (acl : AccessControl x) × (load_from_file x open_file path ≡ ok acl)
        × (acl.mode ≡ m)
        × ((d : Section) (host : Text)
            → check_host_matched (rules_of d acl) host
              ≡ any (λ r. names r (trim_end_matches is_dot host)) (rules d))
  load_from_file-write_file opened writable =
      let (acl, loaded) = is_ok-ok (load_from_file x open_file path) built in
      (
        acl,
        loaded,
        (load_from_file_hosts open_file path lines acl proxy path opened loaded).1
            ∙ ap (mode_under black_list) (read_line-write_file m rules writable)
            ∙ mode_under-say_file m rules,
        λ d host.
            (load_from_file_hosts open_file path lines acl d host opened loaded).0 ∙ named d host,
      )
    where
      lines : List Text
      lines = write_file m rules

      said : (d : Section) → file_rules x d lines ≡ rules d
      said d =
          ap (rules_under d bypass) (read_line-write_file m rules writable)
          ∙ rules_under-say_file m rules d

      plain : (d : Section) → regexes (file_rules x d lines) ≡ []
      plain d = ap regexes (said d) ∙ regexes-IsWritable (rules d) (writable d)

      compiled : (d : Section) → builds x (regexes (file_rules x d lines)) ≡ true
      compiled d = ap (builds x) (plain d) ∙ laws.build-all []

      built : is_ok (load_from_file x open_file path) ≡ true
      built =
          load_from_file_total x open_file path lines opened
          ∙ ground (arith, compiled outbound_block, compiled bypass, compiled proxy)

      unmatched :
          (d : Section) (bare : Text)
          → regex_matches x (regexes (file_rules x d lines)) bare ≡ false
      unmatched d bare =
          ap (λ ts. regex_matches x ts bare) (plain d)
          ∙ regex_matches-any laws [] bare (laws.build-all [])

      named :
          (d : Section) (host : Text)
          → file_names x d lines host ≡ any (λ r. names r (trim_end_matches is_dot host)) (rules d)
      named d host =
          let bare = trim_end_matches is_dot host in
          ap
            (λ rs.
              any (λ r. names r bare) rs || regex_matches x (regexes (file_rules x d lines)) bare)
            (said d)
          ∙ ap (λ b. any (λ r. names r bare) (rules d) || b) (unmatched d bare)
          ∙ ground arith
