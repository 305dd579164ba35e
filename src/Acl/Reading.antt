-- ===== src/Acl/Reading.antt =====
-- What an ACL file says, line by line and without the state of `load_from_file`: a line is read by
-- itself, and a section has the rules of the lines between its headers and the next.
pub mod Lines
pub mod Sections
pub mod Files
pub mod Verdicts
pub mod RuleSets
pub mod Orders
pub mod Writing
use socks_hub.Prelude.{
  ℕ, Bool, true, false, not, ◌||◌, List, [], ◌∷◌, Option, none, some, if◌then◌else◌, is_nil,
}
use socks_hub.Text.{
  Text, codes, eqb, is_ascii, strip_prefix, starts_with_char, trim, to_ascii_lowercase,
  replace_escaped_dots,
}
use socks_hub.Text.Utf8.{as_bytes, from_utf8}
use socks_hub.Net.{v4, v6}
use socks_hub.Acl.Externals.{Externals, IpNet, net4, net6, Captures}
use socks_hub.Acl.ParsingRules.{tree_set_rule_equiv}
use socks_hub.Acl.AccessControl.{
  Mode, black_list, white_list, Section, outbound_block, bypass, proxy,
}

-- A domain with its subdomains, a single name, a network, or a regular expression.
pub data Rule (x : Externals) : Type 0 where
  tree : Text → Rule x
  set : Text → Rule x
  network : IpNet x.Net4 x.Net6 → Rule x
  regex : Text → Rule x

pub data Directive (x : Externals) : Type 0 where
  nothing : Directive x
  set_mode : Mode → Directive x
  enter : Section → Directive x
  add : Rule x → Directive x

module _ (x : Externals) where
  -- A group of a regular expression, as the text of a rule.
  abbrev pub group_rule : (Text → Rule x) → List ℕ → Option (Rule x)
  group_rule rule bytes = elim (from_utf8 bytes) [
    | none ↦ none
    | some t ↦
        if is_ascii (replace_escaped_dots t) then some (rule (replace_escaped_dots t)) else none
  ]

  -- The rule that a regular expression is only another way to write, if there is one.
  abbrev pub equivalent : Text → Option (Rule x)
  equivalent t = elim (x.captures tree_set_rule_equiv (as_bytes t)) [
    | none ↦ none
    | some caps ↦ elim (caps 1) [
      | some bytes ↦ group_rule tree bytes
      | none ↦ elim (caps 2) [ some bytes ↦ group_rule set bytes | none ↦ none ]
    ]
  ]

  abbrev pub read_regex : Text → Rule x
  read_regex t = elim (equivalent t) [ some r ↦ r | none ↦ regex (to_ascii_lowercase t) ]

  abbrev pub read_entry : Text → Rule x
  read_entry t = elim (x.parse_ip_net t) [
    | some n ↦ network n
    | none ↦ elim (x.parse_ip_addr t) [
      | some (v4 a) ↦ network (net4 (x.net4_from a))
      | some (v6 a) ↦ network (net6 (x.net6_from a))
      | none ↦ read_regex t
    ]
  ]

  -- A line without a bar in front.
  abbrev pub read_word : Text → Directive x
  read_word t =
      if eqb t (codes "[reject_all]") || eqb t (codes "[bypass_all]")
      then set_mode white_list
      else if eqb t (codes "[accept_all]") || eqb t (codes "[proxy_all]")
      then set_mode black_list
      else if eqb t (codes "[outbound_block_list]")
      then enter outbound_block
      else if eqb t (codes "[black_list]") || eqb t (codes "[bypass_list]")
      then enter bypass
      else if eqb t (codes "[white_list]") || eqb t (codes "[proxy_list]")
      then enter proxy
      else add (read_entry t)

  abbrev pub read_trimmed : Text → Directive x
  read_trimmed t = if not (is_ascii t) then nothing else elim (strip_prefix (codes "||") t) [
    | some rule ↦ add (tree rule)
    | none ↦ elim (strip_prefix (codes "|") t) [ some rule ↦ add (set rule) | none ↦ read_word t ]
  ]

  unfoldable pub read_line : Text → Directive x
  read_line line =
      if is_nil line || starts_with_char b'#' line then nothing else read_trimmed (trim line)

abbrev pub same_section : Section → Section → Bool
same_section outbound_block outbound_block = true
same_section bypass bypass = true
same_section proxy proxy = true
same_section _ _ = false

module _ {x : Externals} where
  -- The rules that a list of directives gives to the section `d`, if it starts inside of `curr`.
  abbrev pub rules_under : Section → Section → List (Directive x) → List (Rule x)
  rules_under d curr [] = []
  rules_under d curr (nothing ∷ ds) = rules_under d curr ds
  rules_under d curr (set_mode m ∷ ds) = rules_under d curr ds
  rules_under d curr (enter c ∷ ds) = rules_under d c ds
  rules_under d curr (add r ∷ ds) =
      let rest = rules_under d curr ds in if same_section d curr then r ∷ rest else rest

  -- The last mode that is set.
  abbrev pub mode_under : Mode → List (Directive x) → Mode
  mode_under m [] = m
  mode_under m (set_mode m' ∷ ds) = mode_under m' ds
  mode_under m (nothing ∷ ds) = mode_under m ds
  mode_under m (enter c ∷ ds) = mode_under m ds
  mode_under m (add r ∷ ds) = mode_under m ds

  -- The sources of the regular expressions among the rules.
  abbrev pub regexes : List (Rule x) → List Text
  regexes [] = []
  regexes (regex t ∷ rs) = t ∷ regexes rs
  regexes (tree t ∷ rs) = regexes rs
  regexes (set t ∷ rs) = regexes rs
  regexes (network n ∷ rs) = regexes rs
