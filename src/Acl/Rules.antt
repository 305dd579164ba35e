-- ===== src/Acl/Rules.antt =====
-- `Rules` of src/acl/mod.rs: the compiled rules of one section, and the checks against them.
pub mod Matching
pub mod Display
use socks_hub.Prelude.{
  ℕ, Bool, true, false, ◌&&◌, ◌||◌, List, [], ◌∷◌, Option, none, some, if◌then◌else◌, any, is_nil,
}
use socks_hub.Text.{Text, eqb, trim_end_matches, is_dot}
use socks_hub.Text.Utf8.{as_bytes}
use socks_hub.Net.{
  IpAddr, v4, v6, Address, socket_address, domain_address, to_ipv6_mapped, to_ipv4_mapped,
}
use socks_hub.Acl.SubDomainsTree
use socks_hub.Acl.SubDomainsTree.{SubDomainsTree}
use socks_hub.Acl.Externals.{Externals}

-- `HashSet<String>::contains`
abbrev pub set_contains : List Text → Text → Bool
set_contains set host = any (λ t. eqb t host) set

-- `HashSet<String>::insert`
abbrev pub set_insert : List Text → Text → List Text
set_insert set t = if set_contains set t then set else t ∷ set

module _ (x : Externals) where
  pub record Rules : Type 0 where
    pub ipv4 : x.Range4
    pub ipv6 : x.Range6
    pub rule_regex : x.RegexSet
    pub rule_set : List Text
    pub rule_tree : SubDomainsTree

module _ {x : Externals} where
  -- `Rules::new`
  unfoldable pub new_rules : x.Range4 → x.Range6 → x.RegexSet → List Text → SubDomainsTree → Rules x
  new_rules ipv4 ipv6 rule_regex rule_set rule_tree = record {
    ipv4 = x.range4.simplify ipv4;
    ipv6 = x.range6.simplify ipv6;
    rule_regex = rule_regex;
    rule_set = rule_set;
    rule_tree = rule_tree;
  }

  abbrev contains4? : Rules x → Option ℕ → Bool
  contains4? r none = false
  contains4? r (some a) = x.range4.contains r.ipv4 a

  unfoldable pub check_ip_matched : Rules x → IpAddr → Bool
  check_ip_matched r (v4 a) =
      if x.range4.contains r.ipv4 a then true else x.range6.contains r.ipv6 (to_ipv6_mapped a)
  check_ip_matched r (v6 a) =
      if x.range6.contains r.ipv6 a then true else contains4? r (to_ipv4_mapped a)

  unfoldable pub check_host_matched : Rules x → Text → Bool
  check_host_matched r host =
      let h = trim_end_matches is_dot host in
      set_contains r.rule_set h
      || SubDomainsTree.contains r.rule_tree h
      || x.regex_set_is_match r.rule_regex (as_bytes h)

  unfoldable pub check_address_matched : Rules x → Address → Bool
  check_address_matched r (socket_address saddr) = check_ip_matched r saddr.ip
  check_address_matched r (domain_address domain port) = check_host_matched r domain

  unfoldable pub is_ip_empty : Rules x → Bool
  is_ip_empty r = x.range4.is_empty r.ipv4 && x.range6.is_empty r.ipv6

  unfoldable pub is_host_empty : Rules x → Bool
  is_host_empty r =
      is_nil r.rule_set && SubDomainsTree.is_empty r.rule_tree && x.regex_set_is_empty r.rule_regex
