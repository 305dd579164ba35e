-- ===== src/Acl/Externals.antt =====
-- The crates that src/acl/mod.rs calls and does not hold: ipnet, iprange, regex, idna. Their types
-- and functions are the fields of `Externals`; what a theorem relies on is a record of laws.
use socks_hub.Prelude.{ℕ, ◌≡◌, Bool, true, false, ◌||◌, List, Option, any, all}
use socks_hub.Text.{Text}
use socks_hub.Io.{Result, ok, err}
use socks_hub.Net.{IpAddr}

-- `ipnet::IpNet`
pub data IpNet (Net4 Net6 : Type 0) : Type 0 where
  net4 : Net4 → IpNet Net4 Net6
  net6 : Net6 → IpNet Net4 Net6

-- `iprange::IpRange<N>`, its addresses as numbers.
pub record RangeOps (Net Range : Type 0) : Type 0 where
  pub new : Range
  pub add : Range → Net → Range
  pub simplify : Range → Range
  pub contains : Range → ℕ → Bool
  pub is_empty : Range → Bool

-- What iprange documents: a range contains the addresses of the networks that were added to it,
-- and `simplify` merges networks and keeps the set of addresses.
pub record RangeLaws {Net Range : Type 0} (ops : RangeOps Net Range) (net_contains : Net → ℕ → Bool)
    : Type 0 where
  pub contains-new : (a : ℕ) → ops.contains ops.new a ≡ false
  pub contains-add :
      (r : Range) (n : Net) (a : ℕ)
      → ops.contains (ops.add r n) a ≡ (ops.contains r a || net_contains n a)
  pub contains-simplify : (r : Range) (a : ℕ) → ops.contains (ops.simplify r) a ≡ ops.contains r a
  pub contains-of_is_empty : (r : Range) (a : ℕ) → ops.is_empty r ≡ true → ops.contains r a ≡ false

-- The groups of `regex::bytes::Captures`, by number.
abbrev pub Captures : Type 0
Captures = ℕ → Option (List ℕ)

pub record Externals : Type 1 where
  pub Net4 : Type 0
  pub Net6 : Type 0
  pub Range4 : Type 0
  pub Range6 : Type 0
  pub RegexSet : Type 0
  pub range4 : RangeOps Net4 Range4
  pub range6 : RangeOps Net6 Range6
  -- `From<Ipv4Addr> for Ipv4Net` and `From<Ipv6Addr> for Ipv6Net`: the network of one address
  pub net4_from : ℕ → Net4
  pub net6_from : ℕ → Net6
  -- `line.parse::<IpNet>()` and `line.parse::<IpAddr>()`
  pub parse_ip_net : Text → Option (IpNet Net4 Net6)
  pub parse_ip_addr : Text → Option IpAddr
  -- `RegexBuilder::new(pattern).unicode(false).build().unwrap().captures(bytes)`
  pub captures : Text → List ℕ → Option Captures
  -- `RegexSetBuilder::new(patterns).size_limit(usize::MAX).unicode(false).build()`, with the text
  -- of its error
  pub regex_set_build : List Text → Result RegexSet
  pub regex_set_is_match : RegexSet → List ℕ → Bool
  pub regex_set_is_empty : RegexSet → Bool
  -- `idna::domain_to_ascii`
  pub domain_to_ascii : Text → Option Text

-- What regex documents of a set: it compiles when each of its expressions does, and it matches
-- where at least one of them matches.
pub record RegexLaws (x : Externals) (compiles : Text → Bool) (matches : Text → List ℕ → Bool)
    : Type 0 where
  pub build-all :
      (ts : List Text)
      → elim (x.regex_set_build ts) [ ok s ↦ true | err e ↦ false ] ≡ all compiles ts
  pub is_match-any :
      (ts : List Text) (s : x.RegexSet) (bytes : List ℕ)
      → x.regex_set_build ts ≡ ok s
      → x.regex_set_is_match s bytes ≡ any (λ t. matches t bytes) ts
