-- ===== src/Tests/Access.antt =====
-- An ACL file, read and asked.
use socks_hub.Prelude.{◌≡◌, refl, true, false, List, [], ◌∷◌, ◌++◌, map, none, some}
use socks_hub.Text.{Text, codes, eqb, is_ascii, trim, strip_prefix, to_ascii_lowercase}
use socks_hub.Text.Utf8.{as_bytes}
use socks_hub.Io.{Result, ok, err}
use socks_hub.Acl.SubDomainsTree
use socks_hub.Acl.ParsingRules.{add_tree_rule_inner, add_set_rule_inner, add_regex_rule}
use socks_hub.Acl.Rules.{Rules, new_rules, check_ip_matched, check_host_matched}
use socks_hub.Acl.AccessControl.{
  AccessControl, LoadState, start, load_lines, load_from_file, white_list, proxy, bypass,
}
use socks_hub.Acl.AccessControl.Checks.{check_host_in_proxy_list}
use socks_hub.Acl.Reading.{tree, set, regex, read_line}
use socks_hub.Acl.Reading.Files.{
  file_names, file_mode, file_rules, file_builds, is_ok, load_from_file_hosts, load_from_file_total,
}
use socks_hub.Tests.Plain.{plain}

-- What a test of the ACL computes with.
unfoldable pub run_acl : Unit {0}
unfolding load_from_file eqb is_ascii trim strip_prefix add_tree_rule_inner add_set_rule_inner
    add_regex_rule new_rules SubDomainsTree.insert SubDomainsTree.contains to_ascii_lowercase
    as_bytes check_host_in_proxy_list check_host_matched check_ip_matched
run_acl = tt

abbrev pub before : List Text
before = codes "# a comment" ∷ codes "" ∷ codes "[proxy_all]" ∷ codes "[white_list]" ∷ []

abbrev pub line : Text
line = codes "||Example.org."

abbrev pub after : List Text
after = codes "[black_list]" ∷ codes "|ads.net" ∷ codes "plain" ∷ []

abbrev pub files : Text → Result (List (Result Text))
files path = ok (map ok (before ++ line ∷ after))

abbrev pub path : Text
path = codes "a.acl"

abbrev pub from_ok {ℓ} : {A : Type ℓ} → Result A → A → A
from_ok (ok a) b = a
from_ok (err e) b = b

abbrev pub here : LoadState plain
here = from_ok (load_lines (start plain) (map ok before)) (start plain)

abbrev pub no_rules : Rules plain
no_rules = record {
  ipv4 = [];
  ipv6 = [];
  rule_regex = [];
  rule_set = [];
  rule_tree = SubDomainsTree.empty;
}

abbrev pub acl : AccessControl plain
acl = from_ok (load_from_file plain files path) (record {
  outbound_block = no_rules;
  black_list = no_rules;
  white_list = no_rules;
  mode = white_list;
  file_path = [];
})

pub reached : load_lines (start plain) (map ok before) ≡ ok here
unfolding run_acl
reached = refl

loaded : load_from_file plain files path ≡ ok acl
unfolding run_acl
loaded = refl

verdicts :
    (check_host_in_proxy_list acl (codes "WWW.example.org.") ≡ some true)
    × (check_host_in_proxy_list acl (codes "ads.net") ≡ some false)
    × (check_host_in_proxy_list acl (codes "plain") ≡ some false)
    × (check_host_in_proxy_list acl (codes "example.com") ≡ none)
unfolding run_acl
verdicts = (refl, refl, refl, refl)

abbrev pub lines : List Text
lines = before ++ line ∷ after

load_from_file_hosts_example :
    (check_host_matched acl.white_list (codes "www.example.org.")
      ≡ file_names plain proxy lines (codes "www.example.org."))
    × (acl.mode ≡ file_mode plain lines)
load_from_file_hosts_example =
    load_from_file_hosts files path lines acl proxy (codes "www.example.org.") refl loaded

load_from_file_total_example : is_ok (load_from_file plain files path) ≡ file_builds plain lines
load_from_file_total_example = load_from_file_total plain files path lines refl

-- What the file says, without loading it.
reading :
    (file_rules plain proxy lines ≡ tree (codes "Example.org.") ∷ [])
    × (file_rules plain bypass lines ≡ set (codes "ads.net") ∷ regex (codes "plain") ∷ [])
    × (file_builds plain lines ≡ true)
unfolding run_acl read_line
reading = (refl, refl, refl)
