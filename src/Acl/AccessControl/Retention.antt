-- ===== src/Acl/AccessControl/Retention.antt =====
-- From a line of an ACL file to the checks of the loaded `AccessControl`: no later line takes a
-- rule back.
use socks_hub.Prelude.{◌≡◌, refl, ◌∙◌, true, false, List, ◌∷◌, ◌++◌, map, arith}
use socks_hub.Text.{Text, codes, is_ascii, is_dot, starts_with_char, trim, trim_end_matches}
use socks_hub.Text.Equality.{eqb_refl}
use socks_hub.Io.{Result, ok}
use socks_hub.Acl.SubDomainsTree.Subdomain.{IsSubdomain, is_subdomain_iff}
use socks_hub.Acl.Externals.{Externals}
use socks_hub.Acl.Rules.{check_host_matched}
use socks_hub.Acl.ParsingRules.{ParsingRules}
use socks_hub.Acl.ParsingRules.Hosts.{
  knows, stored, add_tree_rule_inner-knows, add_set_rule_inner-knows,
}
use socks_hub.Acl.AccessControl.{
  AccessControl, LoadState, Section, outbound_block, bypass, proxy, section, set_section, load_line,
  load_lines, load_from_file, start,
}
use socks_hub.Acl.AccessControl.Loading.{add_tree_rule_inner-ascii, add_set_rule_inner-ascii}
use socks_hub.Acl.AccessControl.Lines.{
  rules_of, retained, load_lines-at, load_from_file-parts, load_line-tree, load_line-set,
}

module _ {x : Externals} (open_file : Text → Result (List (Result Text))) (path : Text)
    (before after : List Text) (line : Text) (here : LoadState x) (acl : AccessControl x)
    (opened : open_file path ≡ ok (map ok (before ++ line ∷ after)))
    (reached : load_lines (start x) (map ok before) ≡ ok here)
    (loaded : load_from_file x open_file path ≡ ok acl) (rule : Text) (ascii : is_ascii rule ≡ true)
    (host : Text) where
  -- What the line adds to its section is matched in the end.
  line_retained :
      (s : LoadState x)
      → load_line here line ≡ ok s
      → knows (section here.curr s) (trim_end_matches is_dot host) ≡ true
      → check_host_matched (rules_of here.curr acl) host ≡ true
  line_retained s e h =
      let (t, all, done) =
        load_from_file-parts open_file path (before ++ line ∷ after) acl opened loaded in
      let (s', e', rest) = load_lines-at before after line here t reached all in
      let same : s ≡ s' = ground (arith, e, e') in
      retained s t after path acl here.curr host (rw (← same) at rest) done h

  added :
      (p : ParsingRules x)
      → knows p (trim_end_matches is_dot host) ≡ true
      → knows (section here.curr (set_section here.curr p here)) (trim_end_matches is_dot host)
        ≡ true
  added p h = go here.curr
    where
      go :
          (d : Section)
          → knows (section d (set_section d p here)) (trim_end_matches is_dot host) ≡ true
      go outbound_block = h
      go bypass = h
      go proxy = h

  -- A line `||rule`, `rule` in ASCII, in an ACL file whose lines can be read and that loads: the
  -- rules of its section match the rule's domain and every subdomain of it, whatever the lines
  -- behind it are.
  pub tree_rule_retained :
      trim line ≡ codes "||" ++ rule
      → IsSubdomain (trim_end_matches is_dot host) (stored rule)
      → check_host_matched (rules_of here.curr acl) host ≡ true
  tree_rule_retained shape sub =
      let (p, e, e') = add_tree_rule_inner-ascii (section here.curr here) rule ascii in
      line_retained (set_section here.curr p here)
        (load_line-tree here line rule shape ascii ∙ rw e refl)
        (added p (
          add_tree_rule_inner-knows (section here.curr here) p rule (trim_end_matches is_dot host) e
          ∙ (let yes' = (is_subdomain_iff (trim_end_matches is_dot host) (stored rule)).1 sub in
              ground arith)))

  -- A line `|rule`, `rule` in ASCII and without a bar in front, in an ACL file whose lines can be
  -- read and that loads: the rules of its section match that name, whatever the
  -- lines behind it are.
  set_rule_retained :
      trim line ≡ codes "|" ++ rule
      → starts_with_char b'|' rule ≡ false
      → trim_end_matches is_dot host ≡ stored rule
      → check_host_matched (rules_of here.curr acl) host ≡ true
  set_rule_retained shape no_bar same =
      let (p, e, e') = add_set_rule_inner-ascii (section here.curr here) rule ascii in
      line_retained (set_section here.curr p here)
        (load_line-set here line rule shape no_bar ascii ∙ rw e refl)
        (added p (
          add_set_rule_inner-knows (section here.curr here) p rule (trim_end_matches is_dot host) e
          ∙ (rw same (let same' = eqb_refl (stored rule) in ground arith))))
