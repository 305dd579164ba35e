-- ===== src/Acl/AccessControl/Addresses.antt =====
-- From a network in a line of an ACL file to the checks of addresses: no later line takes it back.
use socks_hub.Prelude.{
  ℕ, ◌≡◌, refl, sym, ap, ◌∙◌, Bool, true, false, ◌&&◌, ◌||◌, List, [], ◌∷◌, ◌++◌, map, Option, none,
  some, arith, Bool-cases, Option-cases, inl, inr, leb, ◌==◌, ==_iff,
}
use socks_hub.Text.{Text, codes, eqb, is_ascii, strip_prefix, trim, is_whitespace}
use socks_hub.Text.Ascii.{trim-cons}
use socks_hub.Io.{Result, ok, >>=-eq-ok}
use socks_hub.Net.{IpAddr, v4, v6, to_ipv4_mapped, to_ipv6_mapped}
use socks_hub.Acl.Externals.{Externals, RangeLaws, IpNet, net4, net6}
use socks_hub.Acl.Rules.{Rules, new_rules, check_ip_matched}
use socks_hub.Acl.ParsingRules.{
  ParsingRules, add_ipv4_rule, add_ipv6_rule, add_regex_rule, into_rules, compile_regex,
}
use socks_hub.Acl.ParsingRules.Addresses.{
  covers, holds, GrowsAddresses, SameRanges→GrowsAddresses, add_tree_rule_inner-SameRanges,
  add_set_rule_inner-SameRanges, add_regex_rule-SameRanges, add_ipv4_rule-GrowsAddresses,
  add_ipv6_rule-GrowsAddresses,
}
use socks_hub.Acl.AccessControl.{
  AccessControl, LoadState, Section, outbound_block, bypass, proxy, section, set_section, on_curr,
  add_entry, load_directive, load_trimmed, load_line, load_lines, load_from_file, finish, start,
}
use socks_hub.Acl.AccessControl.Loading.{IsKept, load_lines-EachKept}
use socks_hub.Acl.AccessControl.Lines.{
  rules_of, finish-sections, load_lines-at, load_from_file-parts,
}

-- What a network or an address begins with: a hexadecimal digit or a colon.
abbrev pub begins_address : ℕ → Bool
begins_address c =
    (leb b'0' c && leb c b'9')
    || (leb b'a' c && leb c b'f')
    || (leb b'A' c && leb c b'F')
    || c == b':'

trim-begins :
    (line : Text) (c : ℕ) (rest : Text) → trim (b'#' ∷ line) ≡ c ∷ rest → begins_address c ≡ false
trim-begins line c rest e =
    let p = sym (trim-cons b'#' line (unfold is_whitespace in refl)) ∙ e in ground arith

not_bar :
    (p : Text) (c : ℕ) (rest : Text)
    → begins_address c ≡ true
    → strip_prefix (b'|' ∷ p) (c ∷ rest) ≡ none
unfolding strip_prefix
not_bar p c rest h = let other : (b'|' == c) ≡ false = ground arith in rw other refl

module _ {x : Externals} where
  -- A line that begins like an address is an entry of its section.
  load_directive-entry :
      (s : LoadState x) (c : ℕ) (rest : Text)
      → begins_address c ≡ true
      → load_directive s (c ∷ rest) ≡ on_curr (add_entry (c ∷ rest)) s
  unfolding load_directive eqb
  load_directive-entry s c rest h =
      let no_bracket : (c == b'[') ≡ false = ground arith in rw no_bracket refl

  load_trimmed-entry :
      (s : LoadState x) (c : ℕ) (rest : Text)
      → begins_address c ≡ true
      → is_ascii (c ∷ rest) ≡ true
      → load_trimmed s (c ∷ rest) ≡ ok (on_curr (add_entry (c ∷ rest)) s)
  unfolding load_trimmed
  load_trimmed-entry s c rest h ascii =
      let no_tree : strip_prefix (codes "||") (c ∷ rest) ≡ none = not_bar (codes "|") c rest h in
      let no_set : strip_prefix (codes "|") (c ∷ rest) ≡ none = not_bar [] c rest h in
      rw (ascii, no_tree, no_set, load_trimmed) (ap ok (load_directive-entry s c rest h))

  load_line-entry :
      (s : LoadState x) (line : Text) (c : ℕ) (rest : Text)
      → trim line ≡ c ∷ rest
      → begins_address c ≡ true
      → is_ascii (c ∷ rest) ≡ true
      → load_line s line ≡ ok (on_curr (add_entry (c ∷ rest)) s)
  unfolding load_line
  load_line-entry s [] c rest shape h ascii = unfold trim in ground arith
  load_line-entry s (d ∷ l) c rest shape h ascii = elim (Bool-cases (d == b'#')) [
    | inr other ↦ rw other (ap (load_trimmed s) shape ∙ load_trimmed-entry s c rest h ascii)
    | inl hash ↦ absurd (comment ((==_iff d b'#').0 hash))
  ]
    where
      comment : d ≡ b'#' → ⊥
      comment e =
          let not_begun = trim-begins l c rest (ap (λ (k : ℕ). trim (k ∷ l)) (sym e) ∙ shape) in
          ground arith

module _ {x : Externals} {contains4 : x.Net4 → ℕ → Bool} {contains6 : x.Net6 → ℕ → Bool}
    (laws4 : RangeLaws x.range4 contains4) (laws6 : RangeLaws x.range6 contains6) where
  -- The entry of a network puts its addresses into the section.
  add_entry-holds :
      (p : ParsingRules x) (line : Text) (net : IpNet x.Net4 x.Net6) (ip : IpAddr)
      → x.parse_ip_net line ≡ some net
      → covers x contains4 contains6 net ip ≡ true
      → holds (add_entry line p) ip ≡ true
  unfolding add_entry add_ipv4_rule add_ipv6_rule
  add_entry-holds p line (net4 n) (v4 a) parsed h =
      rw (parsed, add_entry) (ground (arith, laws4.contains-add p.ipv4 n a))
  add_entry-holds p line (net6 n) (v4 a) parsed h =
      rw (parsed, add_entry) (ground (arith, laws6.contains-add p.ipv6 n (to_ipv6_mapped a)))
  add_entry-holds p line (net6 n) (v6 a) parsed h =
      rw (parsed, add_entry) (ground (arith, laws6.contains-add p.ipv6 n a))
  add_entry-holds p line (net4 n) (v6 a) parsed h = elim (Option-cases (to_ipv4_mapped a)) [
    | inl other ↦ ground arith
    | inr (b, mapped) ↦
        let h' = rw (mapped, covers) at h in
        let made : add_entry line p ≡ add_ipv4_rule p n = rw (parsed, add_entry) refl in
        rw (made, mapped) (ground (arith, laws4.contains-add p.ipv4 n b))
  ]

  holds-GrowsAddresses :
      (p q : ParsingRules x) (ip : IpAddr)
      → GrowsAddresses p q
      → holds p ip ≡ true
      → holds q ip ≡ true
  holds-GrowsAddresses p q (v4 a) (g4, g6) h = ground (arith, g4 a, g6 (to_ipv6_mapped a))
  holds-GrowsAddresses p q (v6 a) (g4, g6) h = elim (Option-cases (to_ipv4_mapped a)) [
    | inl other ↦ rw other (let h' = rw other at h in ground (arith, g6 a))
    | inr (b, mapped) ↦ rw mapped (let h' = rw mapped at h in ground (arith, g6 a, g4 b))
  ]

  pub into_rules-holds :
      (p : ParsingRules x) (r : Rules x) (ip : IpAddr)
      → into_rules p ≡ ok r
      → check_ip_matched r ip ≡ holds p ip
  unfolding into_rules new_rules check_ip_matched
  into_rules-holds p r (v4 a) e =
      let (set, compiled, made) = >>=-eq-ok (compile_regex x p.name p.rules_regex) _ e in
      ground
        (arith, laws4.contains-simplify p.ipv4 a, laws6.contains-simplify p.ipv6 (to_ipv6_mapped a))
  into_rules-holds p r (v6 a) e =
      let (set, compiled, made) = >>=-eq-ok (compile_regex x p.name p.rules_regex) _ e in
      elim (Option-cases (to_ipv4_mapped a)) [
        | inl other ↦ rw other (ground (arith, laws6.contains-simplify p.ipv6 a))
        | inr (b, mapped) ↦
            rw mapped
              (ground (arith, laws6.contains-simplify p.ipv6 a, laws4.contains-simplify p.ipv4 b))
      ]

  add_entry-GrowsAddresses :
      (p : ParsingRules x) (line : Text) → GrowsAddresses p (add_entry line p)
  unfolding add_entry
  add_entry-GrowsAddresses p line = go (x.parse_ip_net line) (x.parse_ip_addr line)
    where
      go :
          (m : Option (IpNet x.Net4 x.Net6)) (a : Option IpAddr)
          → GrowsAddresses p (elim m as (λ _. ParsingRules x) [
            | some (net4 n) ↦ add_ipv4_rule p n
            | some (net6 n) ↦ add_ipv6_rule p n
            | none ↦ elim a as (λ _. ParsingRules x) [
              | some (v4 b) ↦ add_ipv4_rule p (x.net4_from b)
              | some (v6 b) ↦ add_ipv6_rule p (x.net6_from b)
              | none ↦ add_regex_rule p line
            ]
          ])
      go (some (net4 n)) a = add_ipv4_rule-GrowsAddresses laws4 laws6 p n
      go (some (net6 n)) a = add_ipv6_rule-GrowsAddresses laws4 laws6 p n
      go none (some (v4 b)) = add_ipv4_rule-GrowsAddresses laws4 laws6 p (x.net4_from b)
      go none (some (v6 b)) = add_ipv6_rule-GrowsAddresses laws4 laws6 p (x.net6_from b)
      go none none =
          SameRanges→GrowsAddresses p (add_regex_rule p line) (add_regex_rule-SameRanges p line)

  GrowsAddresses-IsKept : IsKept {x = x} GrowsAddresses
  GrowsAddresses-IsKept = record {
    same = λ p. (λ a h. h, λ a h. h);
    join = λ p q r f g. (λ a h. g.0 a (f.0 a h), λ a h. g.1 a (f.1 a h));
    tree_rule =
        λ p q rule e. SameRanges→GrowsAddresses p q (add_tree_rule_inner-SameRanges p q rule e);
    set_rule =
        λ p q rule e. SameRanges→GrowsAddresses p q (add_set_rule_inner-SameRanges p q rule e);
    entry = add_entry-GrowsAddresses;
  }

  -- Once the current section holds an address, the loaded rules of that section match it.
  holds-retained :
      (s t : LoadState x) (after : List Text) (path : Text) (acl : AccessControl x) (d : Section)
      (ip : IpAddr)
      → load_lines s (map ok after) ≡ ok t
      → finish path t ≡ ok acl
      → holds (section d s) ip ≡ true
      → check_ip_matched (rules_of d acl) ip ≡ true
  holds-retained s t after path acl d ip loaded done h =
      let (u, e, kept) = load_lines-EachKept GrowsAddresses GrowsAddresses-IsKept s after in
      let same : u ≡ t = ground (arith, e, loaded) in
      into_rules-holds (section d t) (rules_of d acl) ip ((finish-sections path t acl done).0 d)
      ∙ holds-GrowsAddresses (section d s) (section d t) ip (rw same at (kept d)) h

  on_curr-holds :
      (f : ParsingRules x → ParsingRules x) (s : LoadState x) (ip : IpAddr)
      → holds (f (section s.curr s)) ip ≡ true
      → holds (section s.curr (on_curr f s)) ip ≡ true
  on_curr-holds f s ip h = go s.curr h
    where
      go :
          (d : Section)
          → holds (f (section d s)) ip ≡ true
          → holds (section d (set_section d (f (section d s)) s)) ip ≡ true
      go outbound_block k = k
      go bypass k = k
      go proxy k = k

  -- A line that is a network, in an ACL file whose lines can be read and that loads, where the
  -- address ranges keep the laws of iprange: the rules of its section match each
  -- address of the network, in either way to write an IPv4 address, whatever the lines behind it
  -- are. The text of a network is ASCII and begins with a hexadecimal digit or a colon.
  network_rule_retained :
      (open_file : Text → Result (List (Result Text))) (path : Text) (before after : List Text)
      (line : Text) (here : LoadState x) (acl : AccessControl x) (c : ℕ) (rest : Text)
      (net : IpNet x.Net4 x.Net6) (ip : IpAddr)
      → open_file path ≡ ok (map ok (before ++ line ∷ after))
      → load_lines (start x) (map ok before) ≡ ok here
      → load_from_file x open_file path ≡ ok acl
      → trim line ≡ c ∷ rest
      → begins_address c ≡ true
      → is_ascii (c ∷ rest) ≡ true
      → x.parse_ip_net (c ∷ rest) ≡ some net
      → covers x contains4 contains6 net ip ≡ true
      → check_ip_matched (rules_of here.curr acl) ip ≡ true
  network_rule_retained open_file path before after line here acl c rest net ip opened reached
        loaded shape begun ascii parsed inside =
      let (t, all, done) =
        load_from_file-parts open_file path (before ++ line ∷ after) acl opened loaded in
      let (s, e, later) = load_lines-at before after line here t reached all in
      let entry = load_line-entry here line c rest shape begun ascii in
      let same : s ≡ on_curr (add_entry (c ∷ rest)) here = ground (arith, e, entry) in
      holds-retained s t after path acl here.curr ip later done (
        rw same (
          on_curr-holds (add_entry (c ∷ rest)) here ip
            (add_entry-holds (section here.curr here) (c ∷ rest) net ip parsed inside)))
