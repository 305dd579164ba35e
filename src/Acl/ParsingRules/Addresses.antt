-- ===== src/Acl/ParsingRules/Addresses.antt =====
-- Which addresses the networks of a section cover, and how adding a rule changes that.
use socks_hub.Prelude.{ℕ, ◌≡◌, ◌||◌, refl, ◌∙◌, Bool, true, false, none, some, arith}
use socks_hub.Text.{Text}
use socks_hub.Io.{ok}
use socks_hub.Net.{IpAddr, v4, v6, to_ipv4_mapped, to_ipv6_mapped}
use socks_hub.Acl.Externals.{Externals, RangeLaws, IpNet, net4, net6}
use socks_hub.Acl.ParsingRules.{
  ParsingRules, add_ipv4_rule, add_ipv6_rule, add_set_rule_inner, add_tree_rule_inner,
  add_regex_rule,
}

module _ {x : Externals} where
  -- The networks of both families are the same.
  abbrev pub SameRanges : ParsingRules x → ParsingRules x → Type 0
  SameRanges p q = (p.ipv4 ≡ q.ipv4) × (p.ipv6 ≡ q.ipv6)

  pub add_tree_rule_inner-SameRanges :
      (p q : ParsingRules x) (rule : Text) → add_tree_rule_inner p rule ≡ ok q → SameRanges p q
  unfolding add_tree_rule_inner
  add_tree_rule_inner-SameRanges p q rule e = ground arith

  pub add_set_rule_inner-SameRanges :
      (p q : ParsingRules x) (rule : Text) → add_set_rule_inner p rule ≡ ok q → SameRanges p q
  unfolding add_set_rule_inner
  add_set_rule_inner-SameRanges p q rule e = ground arith

  pub add_regex_rule-SameRanges :
      (p : ParsingRules x) (rule : Text) → SameRanges p (add_regex_rule p rule)
  unfolding add_regex_rule add_tree_rule_inner add_set_rule_inner
  add_regex_rule-SameRanges p rule = ground arith

module _ (x : Externals) (contains4 : x.Net4 → ℕ → Bool) (contains6 : x.Net6 → ℕ → Bool) where
  -- An address lies in a network: an IPv4 address in an IPv6 network by its mapped form, an
  -- IPv4-mapped IPv6 address also in an IPv4 network.
  abbrev pub covers : IpNet x.Net4 x.Net6 → IpAddr → Bool
  covers (net4 n) (v4 a) = contains4 n a
  covers (net4 n) (v6 a) = elim (to_ipv4_mapped a) [ some b ↦ contains4 n b | none ↦ false ]
  covers (net6 n) (v4 a) = contains6 n (to_ipv6_mapped a)
  covers (net6 n) (v6 a) = contains6 n a

module _ {x : Externals} where
  -- The section's networks hold an address, of either family and in either way to write it.
  abbrev pub holds : ParsingRules x → IpAddr → Bool
  holds p (v4 a) = x.range4.contains p.ipv4 a || x.range6.contains p.ipv6 (to_ipv6_mapped a)
  holds p (v6 a) =
      x.range6.contains p.ipv6 a
      || elim (to_ipv4_mapped a) [ some b ↦ x.range4.contains p.ipv4 b | none ↦ false ]

  -- No address is lost.
  abbrev pub GrowsAddresses : ParsingRules x → ParsingRules x → Type 0
  GrowsAddresses p q =
      ((a : ℕ) → x.range4.contains p.ipv4 a ≡ true → x.range4.contains q.ipv4 a ≡ true)
      × ((a : ℕ) → x.range6.contains p.ipv6 a ≡ true → x.range6.contains q.ipv6 a ≡ true)

  pub SameRanges→GrowsAddresses : (p q : ParsingRules x) → SameRanges p q → GrowsAddresses p q
  SameRanges→GrowsAddresses p q (e4, e6) = (λ a h. rw e4 at h, λ a h. rw e6 at h)

module _ {x : Externals} {contains4 : x.Net4 → ℕ → Bool} {contains6 : x.Net6 → ℕ → Bool}
    (laws4 : RangeLaws x.range4 contains4) (laws6 : RangeLaws x.range6 contains6) where
  pub add_ipv4_rule-GrowsAddresses :
      (p : ParsingRules x) (n : x.Net4) → GrowsAddresses p (add_ipv4_rule p n)
  unfolding add_ipv4_rule
  add_ipv4_rule-GrowsAddresses p n = (λ a h. laws4.contains-add p.ipv4 n a ∙ rw h refl, λ a h. h)

  pub add_ipv6_rule-GrowsAddresses :
      (p : ParsingRules x) (n : x.Net6) → GrowsAddresses p (add_ipv6_rule p n)
  unfolding add_ipv6_rule
  add_ipv6_rule-GrowsAddresses p n = (λ a h. h, λ a h. laws6.contains-add p.ipv6 n a ∙ rw h refl)
