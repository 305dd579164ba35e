-- ===== src/Acl/ParsingRules.antt =====
-- `ParsingRules` of src/acl/mod.rs: the rules of one section while the file is read.
pub mod Addresses
pub mod Hosts
use socks_hub.Prelude.{ℕ, Bool, true, false, List, [], ◌∷◌, ◌++◌, Option, none, some, if◌then◌else◌}
use mathlib.Core.Option
use socks_hub.Text.{
  Text, codes, is_ascii, is_dot, trim_end_matches, to_ascii_lowercase, replace_escaped_dots,
}
use socks_hub.Text.Utf8.{as_bytes, from_utf8}
use socks_hub.Io.{Error, other, Result, ok, err, ◌>>=◌}
use socks_hub.Acl.SubDomainsTree
use socks_hub.Acl.SubDomainsTree.{SubDomainsTree}
use socks_hub.Acl.Externals.{Externals, Captures}
use socks_hub.Acl.Rules.{Rules, new_rules, set_insert}

-- The pattern of `TREE_SET_RULE_EQUIV`.
abbrev pub tree_set_rule_equiv : Text
tree_set_rule_equiv =
    codes
      "^(?:(?:\\((?:\\?:)?\\^\\|\\\\\\.\\)|(?:\\^\\.(?:\\+|\\*))?\\\\\\.)((?:[\\w-]+(?:\\\\\\.)?)+)|\\^((?:[\\w-]+(?:\\\\\\.)?)+))\\$?$"

module _ (x : Externals) where
  pub record ParsingRules : Type 0 where
    pub name : Text
    pub ipv4 : x.Range4
    pub ipv6 : x.Range6
    pub rules_regex : List Text
    pub rules_set : List Text
    pub rules_tree : SubDomainsTree

  -- `ParsingRules::new`
  abbrev pub new_parsing_rules : Text → ParsingRules
  new_parsing_rules name = record {
    name = name;
    ipv4 = x.range4.new;
    ipv6 = x.range6.new;
    rules_regex = [];
    rules_set = [];
    rules_tree = SubDomainsTree.empty;
  }

  -- `compile_regex`: the error of the crate under the section's name.
  unfoldable pub compile_regex : Text → List Text → Result x.RegexSet
  compile_regex name regex_rules = elim (x.regex_set_build regex_rules) [
    | ok set ↦ ok set
    | err e ↦ err (record { kind = other; message = name ++ codes " regex error: " ++ e.message })
  ]

module _ {x : Externals} where
  unfoldable pub add_ipv4_rule : ParsingRules x → x.Net4 → ParsingRules x
  add_ipv4_rule p rule = record p { ipv4 = x.range4.add p.ipv4 rule }

  unfoldable pub add_ipv6_rule : ParsingRules x → x.Net6 → ParsingRules x
  add_ipv6_rule p rule = record p { ipv6 = x.range6.add p.ipv6 rule }

  -- The text of an ASCII rule without the dots at its end, or the error.
  unfoldable pub check_is_ascii : ParsingRules x → Text → Result Text
  check_is_ascii p str =
      if is_ascii str
      then ok (trim_end_matches is_dot str)
      else err (record {
        kind = other;
        message = p.name ++ codes " parsing error: Unicode not allowed here `" ++ str ++ codes "`";
      })

  -- `add_set_rule` is the same with a trace line.
  unfoldable pub add_set_rule_inner : ParsingRules x → Text → Result (ParsingRules x)
  unfolding check_is_ascii
  add_set_rule_inner p rule = do
    t ← check_is_ascii p rule
    ok (record p { rules_set = set_insert p.rules_set (to_ascii_lowercase t) })

  -- `add_tree_rule` is the same with a trace line.
  unfoldable pub add_tree_rule_inner : ParsingRules x → Text → Result (ParsingRules x)
  unfolding check_is_ascii
  add_tree_rule_inner p rule = do
    t ← check_is_ascii p rule
    ok (record p { rules_tree = SubDomainsTree.insert p.rules_tree t })

  abbrev pub is_ok_some : Result (ParsingRules x) → Option (ParsingRules x)
  is_ok_some (ok p) = some p
  is_ok_some (err e) = none

  -- Add what a captured group says by `add`, if the group is UTF-8 and `add` accepts it.
  abbrev pub add_group :
      (ParsingRules x → Text → Result (ParsingRules x))
      → ParsingRules x
      → List ℕ
      → Option (ParsingRules x)
  add_group add p bytes = elim (from_utf8 bytes) [
    | none ↦ none
    | some rule ↦ is_ok_some (add p (replace_escaped_dots rule))
  ]

  -- The tree rule of group 1, else the set rule of group 2.
  abbrev pub from_captures : ParsingRules x → Captures → Option (ParsingRules x)
  from_captures p caps = elim (caps 1) [
    | some tree_rule ↦ add_group add_tree_rule_inner p tree_rule
    | none ↦ elim (caps 2) [ some set_rule ↦ add_group add_set_rule_inner p set_rule | none ↦ none ]
  ]

  abbrev pub as_tree_or_set_rule : ParsingRules x → Text → Option (ParsingRules x)
  as_tree_or_set_rule p rule = elim (x.captures tree_set_rule_equiv (as_bytes rule)) [
    | none ↦ none
    | some caps ↦ from_captures p caps
  ]

  unfoldable pub add_regex_rule : ParsingRules x → Text → ParsingRules x
  unfolding add_tree_rule_inner add_set_rule_inner
  add_regex_rule p rule = elim (as_tree_or_set_rule p rule) [
    | some p' ↦ p'
    | none ↦ record p { rules_regex = p.rules_regex ++ to_ascii_lowercase rule ∷ [] }
  ]

  unfoldable pub into_rules : ParsingRules x → Result (Rules x)
  unfolding compile_regex
  into_rules p = do
    set ← compile_regex x p.name p.rules_regex
    ok (new_rules p.ipv4 p.ipv6 set p.rules_set p.rules_tree)
