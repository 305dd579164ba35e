-- ===== src/Acl/AccessControl.antt =====
-- `AccessControl` of src/acl/mod.rs and the reading of an ACL file; its checks are in `Checks`.
pub mod Addresses
pub mod Checks
pub mod Lines
pub mod Loading
pub mod Retention
pub mod Verdicts
use socks_hub.Prelude.{
  ℕ, Bool, true, false, not, ◌&&◌, ◌||◌, List, [], ◌∷◌, Option, none, some, if◌then◌else◌, any,
  is_nil,
}
use socks_hub.Text.{Text, codes, eqb, is_ascii, strip_prefix, starts_with_char, trim}
use socks_hub.Io.{Error, Result, ok, err, ◌>>=◌}
use socks_hub.Net.{IpAddr, v4, v6, SocketAddr, Address, socket_address, domain_address}
use socks_hub.Acl.Externals.{Externals, IpNet, net4, net6}
use socks_hub.Acl.Rules
use socks_hub.Acl.Rules.{Rules, check_ip_matched, check_host_matched}
use socks_hub.Acl.ParsingRules.{
  ParsingRules, new_parsing_rules, add_ipv4_rule, add_ipv6_rule, add_set_rule_inner,
  add_tree_rule_inner, add_regex_rule, into_rules,
}

pub data Mode : Type 0 where
  black_list white_list : Mode

-- Where the pointer `curr` of `load_from_file` stands.
pub data Section : Type 0 where
  outbound_block bypass proxy : Section

module _ (x : Externals) where
  pub record AccessControl : Type 0 where
    pub outbound_block : Rules x
    pub black_list : Rules x
    pub white_list : Rules x
    pub mode : Mode
    pub file_path : Text

  -- The variables of `load_from_file`.
  pub record LoadState : Type 0 where
    pub mode : Mode
    pub outbound_block : ParsingRules x
    pub bypass : ParsingRules x
    pub proxy : ParsingRules x
    pub curr : Section

  abbrev pub start : LoadState
  start = record {
    mode = black_list;
    outbound_block = new_parsing_rules x (codes "[outbound_block_list]");
    bypass = new_parsing_rules x (codes "[black_list] or [bypass_list]");
    proxy = new_parsing_rules x (codes "[white_list] or [proxy_list]");
    curr = bypass;
  }

module _ {x : Externals} where
  abbrev pub section : Section → LoadState x → ParsingRules x
  section outbound_block s = s.outbound_block
  section bypass s = s.bypass
  section proxy s = s.proxy

  abbrev pub set_section : Section → ParsingRules x → LoadState x → LoadState x
  set_section outbound_block p s = record s { outbound_block = p }
  set_section bypass p s = record s { bypass = p }
  set_section proxy p s = record s { proxy = p }

  -- A call on `curr` that cannot fail, and one that can.
  abbrev pub on_curr : (ParsingRules x → ParsingRules x) → LoadState x → LoadState x
  on_curr f s = set_section s.curr (f (section s.curr s)) s

  abbrev pub on_curr? :
      (ParsingRules x → Result (ParsingRules x)) → LoadState x → Result (LoadState x)
  on_curr? f s = do p ← f (section s.curr s); ok (set_section s.curr p s)

  -- The rule that a line without a prefix gives: a network, an address or a regular expression.
  unfoldable pub add_entry : Text → ParsingRules x → ParsingRules x
  unfolding add_ipv4_rule add_ipv6_rule
  add_entry line p = elim (x.parse_ip_net line) [
    | some (net4 n) ↦ add_ipv4_rule p n
    | some (net6 n) ↦ add_ipv6_rule p n
    | none ↦ elim (x.parse_ip_addr line) [
      | some (v4 a) ↦ add_ipv4_rule p (x.net4_from a)
      | some (v6 a) ↦ add_ipv6_rule p (x.net6_from a)
      | none ↦ add_regex_rule p line
    ]
  ]

  -- The `match line` of the loop.
  unfoldable pub load_directive : LoadState x → Text → LoadState x
  unfolding add_entry
  load_directive s line =
      if eqb line (codes "[reject_all]") || eqb line (codes "[bypass_all]")
      then record s { mode = white_list }
      else if eqb line (codes "[accept_all]") || eqb line (codes "[proxy_all]")
      then record s { mode = black_list }
      else if eqb line (codes "[outbound_block_list]")
      then record s { curr = outbound_block }
      else if eqb line (codes "[black_list]") || eqb line (codes "[bypass_list]")
      then record s { curr = bypass }
      else if eqb line (codes "[white_list]") || eqb line (codes "[proxy_list]")
      then record s { curr = proxy }
      else on_curr (add_entry line) s

  -- The body of the loop from `let line = line.trim()` on.
  unfoldable pub load_trimmed : LoadState x → Text → Result (LoadState x)
  unfolding load_directive
  load_trimmed s line =
      if not (is_ascii line) then ok s else elim (strip_prefix (codes "||") line) [
        | some rule ↦ on_curr? (λ p. add_tree_rule_inner p rule) s
        | none ↦ elim (strip_prefix (codes "|") line) [
          | some rule ↦ on_curr? (λ p. add_set_rule_inner p rule) s
          | none ↦ ok (load_directive s line)
        ]
      ]

  unfoldable pub load_line : LoadState x → Text → Result (LoadState x)
  unfolding load_trimmed
  load_line s line =
      if is_nil line || starts_with_char b'#' line then ok s else load_trimmed s (trim line)

  -- The loop over `r.lines()`, each of which is a line or the error of reading it.
  unfoldable pub load_lines : LoadState x → List (Result Text) → Result (LoadState x)
  unfolding load_line
  load_lines s [] = ok s
  load_lines s (err e ∷ lines) = err e
  load_lines s (ok line ∷ lines) = load_line s line >>= λ s'. load_lines s' lines

  -- What follows the loop.
  unfoldable pub finish : Text → LoadState x → Result (AccessControl x)
  unfolding into_rules
  finish file_path s = do
    outbound ← into_rules s.outbound_block
    black ← into_rules s.bypass
    white ← into_rules s.proxy
    ok (record {
      outbound_block = outbound;
      black_list = black;
      white_list = white;
      mode = s.mode;
      file_path = file_path;
    })

module _ (x : Externals) where
  -- `open` gives the lines of a file as `BufRead::lines` does, or the error of opening it.
  unfoldable pub load_from_file :
      (Text → Result (List (Result Text))) → Text → Result (AccessControl x)
  unfolding load_lines finish
  load_from_file open_file p = do lines ← open_file p; s ← load_lines (start x) lines; finish p s
