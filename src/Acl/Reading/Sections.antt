-- ===== src/Acl/Reading/Sections.antt =====
-- The sections that the directives of a file leave, and what the rules of a section match.
use mathlib.Core.List.{append-nil, append_assoc}
use socks_hub.Prelude.{
  ℕ, ◌≡◌, refl, sym, ap, ◌∙◌, Bool, false, ◌||◌, List, [], ◌∷◌, ◌++◌, foldl, if◌then◌else◌, any,
  arith, Option-cases, inl, inr,
}
use socks_hub.Text.{Text, eqb, is_dot, trim_end_matches}
use socks_hub.Net.{IpAddr, v4, v6, to_ipv4_mapped, to_ipv6_mapped}
use socks_hub.Acl.Externals.{Externals, RangeLaws, net4, net6}
use socks_hub.Acl.SubDomainsTree.Subdomain.{is_subdomain, contains-insert}
use socks_hub.Acl.ParsingRules.{ParsingRules, new_parsing_rules, add_ipv4_rule, add_ipv6_rule}
use socks_hub.Acl.ParsingRules.Addresses.{covers}
use socks_hub.Acl.ParsingRules.Hosts.{knows, stored, set_contains-set_insert}
use socks_hub.Acl.AccessControl.{
  LoadState, Mode, Section, outbound_block, bypass, proxy, section, set_section, on_curr,
}
use socks_hub.Acl.ParsingRules.Addresses.{holds}
use socks_hub.Acl.Reading.{
  Rule, tree, set, network, regex, Directive, nothing, set_mode, enter, add, rules_under,
  mode_under, regexes, same_section,
}
use socks_hub.Acl.Reading.Lines.{add_rule, obey}

module _ {x : Externals} where
  set_section-moved :
      (c : Section) (p : ParsingRules x) (s : LoadState x)
      → ((set_section c p s).mode ≡ s.mode) × ((set_section c p s).curr ≡ s.curr)
  set_section-moved outbound_block p s = (refl, refl)
  set_section-moved bypass p s = (refl, refl)
  set_section-moved proxy p s = (refl, refl)

  section-moved :
      (d c : Section) (m : Mode) (s : LoadState x)
      → section d (record s { mode = m; curr = c }) ≡ section d s
  section-moved outbound_block c m s = refl
  section-moved bypass c m s = refl
  section-moved proxy c m s = refl

  -- The mode is the last one that is set.
  pub mode-obey :
      (s : LoadState x) (ds : List (Directive x)) → (foldl obey s ds).mode ≡ mode_under s.mode ds
  mode-obey s [] = refl
  mode-obey s (nothing ∷ ds) = mode-obey s ds
  mode-obey s (set_mode m ∷ ds) = mode-obey (record s { mode = m }) ds
  mode-obey s (enter d ∷ ds) = mode-obey (record s { curr = d }) ds
  mode-obey s (add r ∷ ds) =
      mode-obey (on_curr (λ p. add_rule p r) s) ds
      ∙ ap (λ m. mode_under m ds) (set_section-moved s.curr (add_rule (section s.curr s) r) s).0

  add_rule-section :
      (d c : Section) (r : Rule x) (rs : List (Rule x)) (s : LoadState x)
      → foldl add_rule (section d (set_section c (add_rule (section c s) r) s)) rs
        ≡ foldl add_rule (section d s) (if same_section d c then r ∷ rs else rs)
  add_rule-section outbound_block outbound_block r rs s = refl
  add_rule-section outbound_block bypass r rs s = refl
  add_rule-section outbound_block proxy r rs s = refl
  add_rule-section bypass outbound_block r rs s = refl
  add_rule-section bypass bypass r rs s = refl
  add_rule-section bypass proxy r rs s = refl
  add_rule-section proxy outbound_block r rs s = refl
  add_rule-section proxy bypass r rs s = refl
  add_rule-section proxy proxy r rs s = refl

  -- A section is built from its rules alone, in the order of the lines.
  pub section-obey :
      (d : Section) (s : LoadState x) (ds : List (Directive x))
      → section d (foldl obey s ds) ≡ foldl add_rule (section d s) (rules_under d s.curr ds)
  section-obey d s [] = refl
  section-obey d s (nothing ∷ ds) = section-obey d s ds
  section-obey d s (set_mode m ∷ ds) =
      section-obey d (record s { mode = m }) ds
      ∙ ap (λ p. foldl add_rule p (rules_under d s.curr ds)) (section-moved d s.curr m s)
  section-obey d s (enter c ∷ ds) =
      section-obey d (record s { curr = c }) ds
      ∙ ap (λ p. foldl add_rule p (rules_under d c ds)) (section-moved d c s.mode s)
  section-obey d s (add r ∷ ds) =
      let p = add_rule (section s.curr s) r in
      section-obey d (set_section s.curr p s) ds
      ∙ ap (λ c. foldl add_rule (section d (set_section s.curr p s)) (rules_under d c ds))
          (set_section-moved s.curr p s).1
      ∙ add_rule-section d s.curr r (rules_under d s.curr ds) s

  -- Whether a rule of the tree or the set names a host, without the dots at its end.
  abbrev pub names : Rule x → Text → Bool
  names (tree t) host = is_subdomain host (stored t)
  names (set t) host = eqb (stored t) host
  names (network n) host = false
  names (regex t) host = false

  knows-add_rule :
      (p : ParsingRules x) (r : Rule x) (host : Text)
      → knows (add_rule p r) host ≡ (knows p host || names r host)
  unfolding add_rule
  knows-add_rule p (tree t) host =
      ground (arith, contains-insert p.rules_tree (trim_end_matches is_dot t) host)
  knows-add_rule p (set t) host =
      ground (arith, set_contains-set_insert p.rules_set (stored t) host)
  knows-add_rule p (network (net4 n)) host = unfold add_ipv4_rule in ground arith
  knows-add_rule p (network (net6 n)) host = unfold add_ipv6_rule in ground arith
  knows-add_rule p (regex t) host = ground arith

  pub knows-foldl :
      (p : ParsingRules x) (rs : List (Rule x)) (host : Text)
      → knows (foldl add_rule p rs) host ≡ (knows p host || any (λ r. names r host) rs)
  knows-foldl p [] host = ground arith
  knows-foldl p (r ∷ rs) host =
      ground (arith, knows-foldl (add_rule p r) rs host, knows-add_rule p r host)

  pub regexes-foldl :
      (p : ParsingRules x) (rs : List (Rule x))
      → ((foldl add_rule p rs).rules_regex ≡ p.rules_regex ++ regexes rs)
        × ((foldl add_rule p rs).name ≡ p.name)
  unfolding add_rule
  regexes-foldl p [] = (sym (append-nil p.rules_regex), refl)
  regexes-foldl p (tree t ∷ rs) = regexes-foldl (add_rule p (tree t)) rs
  regexes-foldl p (set t ∷ rs) = regexes-foldl (add_rule p (set t)) rs
  regexes-foldl p (network (net4 n) ∷ rs) =
      unfold add_ipv4_rule in regexes-foldl (add_rule p (network (net4 n))) rs
  regexes-foldl p (network (net6 n) ∷ rs) =
      unfold add_ipv6_rule in regexes-foldl (add_rule p (network (net6 n))) rs
  regexes-foldl p (regex t ∷ rs) =
      let (same, named) = regexes-foldl (add_rule p (regex t)) rs in
      (same ∙ append_assoc p.rules_regex (t ∷ []) (regexes rs), named)

module _ (x : Externals) (contains4 : x.Net4 → ℕ → Bool) (contains6 : x.Net6 → ℕ → Bool) where
  -- Whether a rule is a network with the address.
  abbrev pub encloses : Rule x → IpAddr → Bool
  encloses (network n) ip = covers x contains4 contains6 n ip
  encloses (tree t) ip = false
  encloses (set t) ip = false
  encloses (regex t) ip = false

module _ {x : Externals} {contains4 : x.Net4 → ℕ → Bool} {contains6 : x.Net6 → ℕ → Bool}
    (laws4 : RangeLaws x.range4 contains4) (laws6 : RangeLaws x.range6 contains6) where
  holds-add_rule :
      (p : ParsingRules x) (r : Rule x) (ip : IpAddr)
      → holds (add_rule p r) ip ≡ (holds p ip || encloses x contains4 contains6 r ip)
  unfolding add_rule add_ipv4_rule add_ipv6_rule
  holds-add_rule p (network (net4 n)) (v4 a) = ground (arith, laws4.contains-add p.ipv4 n a)
  holds-add_rule p (network (net6 n)) (v4 a) =
      ground (arith, laws6.contains-add p.ipv6 n (to_ipv6_mapped a))
  holds-add_rule p (network (net6 n)) (v6 a) = ground (arith, laws6.contains-add p.ipv6 n a)
  holds-add_rule p (network (net4 n)) (v6 a) = elim (Option-cases (to_ipv4_mapped a)) [
    | inl other ↦ rw other (ground arith)
    | inr (b, mapped) ↦ rw mapped (ground (arith, laws4.contains-add p.ipv4 n b))
  ]
  holds-add_rule p (tree t) (v4 a) = ground arith
  holds-add_rule p (tree t) (v6 a) = ground arith
  holds-add_rule p (set t) (v4 a) = ground arith
  holds-add_rule p (set t) (v6 a) = ground arith
  holds-add_rule p (regex t) (v4 a) = ground arith
  holds-add_rule p (regex t) (v6 a) = ground arith

  pub holds-foldl :
      (p : ParsingRules x) (rs : List (Rule x)) (ip : IpAddr)
      → holds (foldl add_rule p rs) ip
        ≡ (holds p ip || any (λ r. encloses x contains4 contains6 r ip) rs)
  holds-foldl p [] ip = ground arith
  holds-foldl p (r ∷ rs) ip =
      ground (arith, holds-foldl (add_rule p r) rs ip, holds-add_rule p r ip)

module _ (x : Externals) {contains4 : x.Net4 → ℕ → Bool} {contains6 : x.Net6 → ℕ → Bool}
    (laws4 : RangeLaws x.range4 contains4) (laws6 : RangeLaws x.range6 contains6) where
  pub holds-new : (name : Text) (ip : IpAddr) → holds (new_parsing_rules x name) ip ≡ false
  holds-new name (v4 a) =
      ground (arith, laws4.contains-new a, laws6.contains-new (to_ipv6_mapped a))
  holds-new name (v6 a) = elim (Option-cases (to_ipv4_mapped a)) [
    | inl other ↦ rw other (ground (arith, laws6.contains-new a))
    | inr (b, mapped) ↦ rw mapped (ground (arith, laws6.contains-new a, laws4.contains-new b))
  ]
