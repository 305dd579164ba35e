-- ===== src/Acl/Reading/Lines.antt =====
-- The loop of `load_from_file` does what the lines say.
use socks_hub.Prelude.{
  ◌≡◌, refl, ap, true, List, [], ◌∷◌, ◌++◌, map, foldl, arith, Bool-cases, Option-cases, inl, inr,
}
use socks_hub.Text.{
  Text, codes, is_ascii, is_dot, strip_prefix, trim, trim_end_matches, to_ascii_lowercase,
}
use socks_hub.Io.{ok}
use socks_hub.Acl.Externals.{Externals, net4, net6}
use socks_hub.Acl.SubDomainsTree
use socks_hub.Acl.Rules.{set_insert}
use socks_hub.Acl.ParsingRules.{
  ParsingRules, add_ipv4_rule, add_ipv6_rule, add_tree_rule_inner, add_set_rule_inner,
  add_regex_rule,
}
use socks_hub.Acl.AccessControl.{
  LoadState, section, on_curr, add_entry, load_directive, load_trimmed, load_line, load_lines,
}
use socks_hub.Acl.Reading.{
  Rule, tree, set, network, regex, Directive, nothing, set_mode, enter, add, read_regex, read_entry,
  read_word, read_trimmed, read_line,
}
use socks_hub.Acl.AccessControl.Loading.{is_ascii-strip_prefix}

module _ {x : Externals} where
  -- What a rule does to its section.
  unfoldable pub add_rule : ParsingRules x → Rule x → ParsingRules x
  unfolding add_ipv4_rule add_ipv6_rule
  add_rule p (tree t) = record p {
    rules_tree = SubDomainsTree.insert p.rules_tree (trim_end_matches is_dot t);
  }
  add_rule p (set t) = record p {
    rules_set = set_insert p.rules_set (to_ascii_lowercase (trim_end_matches is_dot t));
  }
  add_rule p (network (net4 n)) = add_ipv4_rule p n
  add_rule p (network (net6 n)) = add_ipv6_rule p n
  add_rule p (regex t) = record p { rules_regex = p.rules_regex ++ t ∷ [] }

  pub add_tree_rule_inner-eq :
      (p : ParsingRules x) (t : Text)
      → is_ascii t ≡ true
      → add_tree_rule_inner p t ≡ ok (add_rule p (tree t))
  unfolding add_tree_rule_inner add_rule
  add_tree_rule_inner-eq p t h = rw h refl

  pub add_set_rule_inner-eq :
      (p : ParsingRules x) (t : Text)
      → is_ascii t ≡ true
      → add_set_rule_inner p t ≡ ok (add_rule p (set t))
  unfolding add_set_rule_inner add_rule
  add_set_rule_inner-eq p t h = rw h refl

  add_regex_rule-eq :
      (p : ParsingRules x) (t : Text) → add_regex_rule p t ≡ add_rule p (read_regex x t)
  unfolding add_regex_rule add_rule
  add_regex_rule-eq p t = ground arith

  add_entry-eq : (p : ParsingRules x) (t : Text) → add_entry t p ≡ add_rule p (read_entry x t)
  unfolding add_entry add_rule
  add_entry-eq p t = ground (arith, add_regex_rule-eq p t)

  -- What a directive does to the loop's variables.
  abbrev pub obey : LoadState x → Directive x → LoadState x
  obey s nothing = s
  obey s (set_mode m) = record s { mode = m }
  obey s (enter d) = record s { curr = d }
  obey s (add r) = on_curr (λ p. add_rule p r) s

  load_directive-eq : (s : LoadState x) (t : Text) → load_directive s t ≡ obey s (read_word x t)
  unfolding load_directive
  load_directive-eq s t = ground (arith, add_entry-eq (section s.curr s) t)

  load_trimmed-eq : (s : LoadState x) (t : Text) → load_trimmed s t ≡ ok (obey s (read_trimmed x t))
  unfolding load_trimmed
  load_trimmed-eq s t = elim (Bool-cases (is_ascii t)) [
    | inr foreign ↦ rw foreign refl
    | inl ascii ↦ rw ascii (elim (Option-cases (strip_prefix (codes "||") t)) [
      | inr (rule, found) ↦
          rw (found, load_trimmed, read_trimmed)
            (rw
              (add_tree_rule_inner-eq (section s.curr s) rule
                (is_ascii-strip_prefix _ t ascii found))
              refl)
      | inl no_tree ↦ elim (Option-cases (strip_prefix (codes "|") t)) [
        | inr (rule, found) ↦
            rw (no_tree, found, load_trimmed, read_trimmed)
              (rw
                (add_set_rule_inner-eq (section s.curr s) rule
                  (is_ascii-strip_prefix _ t ascii found))
                refl)
        | inl no_set ↦
            rw (no_tree, no_set, load_trimmed, read_trimmed) (ap ok (load_directive-eq s t))
      ]
    ])
  ]

  pub load_line-eq :
      (s : LoadState x) (line : Text) → load_line s line ≡ ok (obey s (read_line x line))
  unfolding load_line read_line
  load_line-eq s line = ground (arith, load_trimmed-eq s (trim line))

  -- Lines that can be read are obeyed one after another, and none is an error.
  pub load_lines-eq :
      (s : LoadState x) (lines : List Text)
      → load_lines s (map ok lines) ≡ ok (foldl obey s (map (read_line x) lines))
  unfolding load_lines
  load_lines-eq s [] = refl
  load_lines-eq s (line ∷ lines) =
      rw (load_line-eq s line) (load_lines-eq (obey s (read_line x line)) lines)
