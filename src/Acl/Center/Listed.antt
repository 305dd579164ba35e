-- ===== src/Acl/Center/Listed.antt =====
-- From a line of the ACL file of a configuration to the question that the servers ask.
use socks_hub.Prelude.{◌≡◌, refl, sym, ap, ◌∙◌, true, List, ◌∷◌, ◌++◌, map, none, some}
use socks_hub.Text.{Text, codes, is_ascii, is_dot, trim, trim_end_matches}
use socks_hub.Io.{Result, ok, err}
use socks_hub.Config.{Config}
use socks_hub.Acl.SubDomainsTree.Subdomain.{IsSubdomain}
use socks_hub.Acl.Externals.{Externals}
use socks_hub.Acl.Rules.{check_host_matched}
use socks_hub.Acl.ParsingRules.Hosts.{stored}
use socks_hub.Acl.AccessControl.{AccessControl, LoadState, proxy, load_lines, load_from_file, start}
use socks_hub.Acl.AccessControl.Checks.{convert_to_ascii}
use socks_hub.Acl.AccessControl.Lines.{rules_of}
use socks_hub.Acl.AccessControl.Retention.{tree_rule_retained}
use socks_hub.Acl.Center.{init_center, must_proxied, must_proxied-white_list}

-- A line `||rule`, `rule` in ASCII, in the white list of the configured ACL file, all of whose
-- lines can be read, where no list has been set before: the rule's domain and every subdomain of it
-- are proxied, whatever else the file says, and also if the file is not accepted in the end.
pub white_rule_must_proxied :
    {x : Externals} (open_file : Text → Result (List (Result Text))) (config : Config) (path : Text)
    (before after : List Text) (line rule : Text) (here : LoadState x) (host : Text)
    → config.acl_file ≡ some path
    → open_file path ≡ ok (map ok (before ++ line ∷ after))
    → load_lines (start x) (map ok before) ≡ ok here
    → here.curr ≡ proxy
    → trim line ≡ codes "||" ++ rule
    → is_ascii rule ≡ true
    → IsSubdomain (trim_end_matches is_dot (convert_to_ascii x host)) (stored rule)
    → must_proxied (init_center x open_file config none) host ≡ true
unfolding init_center
white_rule_must_proxied {x} open_file config path before after line rule here host named opened
      reached current shape ascii sub =
    rw named (go (load_from_file x open_file path) refl)
  where
    go :
        (r : Result (AccessControl x))
        → load_from_file x open_file path ≡ r
        → must_proxied (some (elim r [ ok acl ↦ some acl | err e ↦ none ])) host ≡ true
    go (err e) loaded = unfold must_proxied in refl
    go (ok acl) loaded =
        must_proxied-white_list acl host
        ∙ ap (λ d. check_host_matched (rules_of d acl) (convert_to_ascii x host)) (sym current)
        ∙ tree_rule_retained open_file path before after line here acl opened reached loaded rule
            ascii (convert_to_ascii x host) shape sub
