-- ===== src/Acl/ParsingRules/Hosts.antt =====
-- Which host names the tree and set rules of a section know, and how adding a rule changes that.
use mathlib.Core.Option.{none-ne-some}
use socks_hub.Prelude.{
  ℕ, ◌≡◌, refl, ◌∙◌, Bool, true, ◌||◌, List, Option, none, some, arith, Bool-cases, Option-cases,
  inl, inr,
}
use socks_hub.Text.{Text, eqb, is_dot, trim_end_matches, to_ascii_lowercase, replace_escaped_dots}
use socks_hub.Text.Utf8.{from_utf8, as_bytes}
use socks_hub.Text.Equality.{eqb_iff}
use socks_hub.Io.{Result, ok, err}
use socks_hub.Acl.SubDomainsTree
use socks_hub.Acl.SubDomainsTree.Subdomain.{is_subdomain, contains-insert}
use socks_hub.Acl.Externals.{Externals, Captures}
use socks_hub.Acl.Rules.{set_contains, set_insert}
use socks_hub.Acl.ParsingRules.{
  ParsingRules, add_set_rule_inner, add_tree_rule_inner, add_regex_rule, is_ok_some,
  tree_set_rule_equiv, add_group, from_captures,
}

pub set_contains-set_insert :
    (set : List Text) (t host : Text)
    → set_contains (set_insert set t) host ≡ (set_contains set host || eqb t host)
set_contains-set_insert set t host = elim (Bool-cases (set_contains set t)) [
  | inl old ↦ rw old (ground (arith, eqb_iff t host))
  | inr new ↦ rw new (ground arith)
]

-- A rule as it is stored: without the dots at its end, in lower case.
abbrev pub stored : Text → Text
stored rule = to_ascii_lowercase (trim_end_matches is_dot rule)

module _ {x : Externals} where
  -- What the section says of a host by its set and its tree, before the regular expressions.
  abbrev pub knows : ParsingRules x → Text → Bool
  knows p host = set_contains p.rules_set host || SubDomainsTree.contains p.rules_tree host

  abbrev pub Grows : ParsingRules x → ParsingRules x → Type 0
  Grows p q = (host : Text) → knows p host ≡ true → knows q host ≡ true

  pub add_tree_rule_inner-knows :
      (p q : ParsingRules x) (rule host : Text)
      → add_tree_rule_inner p rule ≡ ok q
      → knows q host ≡ (knows p host || is_subdomain host (stored rule))
  unfolding add_tree_rule_inner
  add_tree_rule_inner-knows p q rule host e =
      ground (arith, contains-insert p.rules_tree (trim_end_matches is_dot rule) host)

  pub add_set_rule_inner-knows :
      (p q : ParsingRules x) (rule host : Text)
      → add_set_rule_inner p rule ≡ ok q
      → knows q host ≡ (knows p host || eqb (stored rule) host)
  unfolding add_set_rule_inner
  add_set_rule_inner-knows p q rule host e =
      ground (arith, set_contains-set_insert p.rules_set (stored rule) host)

  pub add_tree_rule_inner-Grows :
      (p q : ParsingRules x) (rule : Text) → add_tree_rule_inner p rule ≡ ok q → Grows p q
  add_tree_rule_inner-Grows p q rule e host h =
      add_tree_rule_inner-knows p q rule host e ∙ rw h refl

  pub add_set_rule_inner-Grows :
      (p q : ParsingRules x) (rule : Text) → add_set_rule_inner p rule ≡ ok q → Grows p q
  add_set_rule_inner-Grows p q rule e host h = add_set_rule_inner-knows p q rule host e ∙ rw h refl

  add_group-Grows :
      (add : ParsingRules x → Text → Result (ParsingRules x))
      → ((p q : ParsingRules x) (rule : Text) → add p rule ≡ ok q → Grows p q)
      → (p q : ParsingRules x) (bytes : List ℕ) → add_group add p bytes ≡ some q
      → Grows p q
  add_group-Grows add grows p q bytes e = elim (Option-cases (from_utf8 bytes)) [
    | inl invalid ↦ absurd (none-ne-some q (rw (invalid, add_group) at e))
    | inr (rule, valid) ↦
        grows p q (replace_escaped_dots rule) (accepted _ (rw (valid, add_group) at e))
  ]
    where
      accepted : (r : Result (ParsingRules x)) → is_ok_some r ≡ some q → r ≡ ok q
      accepted (ok a) h = cc
      accepted (err a) h = cc

  from_captures-Grows :
      (p q : ParsingRules x) (caps : Captures) → from_captures p caps ≡ some q → Grows p q
  from_captures-Grows p q caps e = go (caps 1) (caps 2) e
    where
      go :
          (a b : Option (List ℕ))
          → elim a as (λ _. Option (ParsingRules x)) [
            | some tree_rule ↦ add_group add_tree_rule_inner p tree_rule
            | none ↦ elim b [
              | some set_rule ↦ add_group add_set_rule_inner p set_rule
              | none ↦ none
            ]
          ]
            ≡ some q
          → Grows p q
      go (some t) b h = add_group-Grows add_tree_rule_inner add_tree_rule_inner-Grows p q t h
      go none (some t) h = add_group-Grows add_set_rule_inner add_set_rule_inner-Grows p q t h
      go none none h = cc

  -- A regular expression line forgets no host either, whether it becomes a tree rule, a set rule
  -- or stays a regular expression.
  pub add_regex_rule-Grows : (p : ParsingRules x) (rule : Text) → Grows p (add_regex_rule p rule)
  unfolding add_regex_rule
  add_regex_rule-Grows p rule host h =
      elim (Option-cases (x.captures tree_set_rule_equiv (as_bytes rule))) [
        | inl plain ↦ rw (plain, add_regex_rule) h
        | inr (caps, found) ↦ elim (Option-cases (from_captures p caps)) [
          | inl neither ↦ rw (found, neither, add_regex_rule) h
          | inr (q, taken) ↦
              rw (found, taken, add_regex_rule) (from_captures-Grows p q caps taken host h)
        ]
      ]
