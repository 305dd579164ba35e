-- ===== src/Tests/Writing.antt =====
-- An ACL file that is written from its rules.
use socks_hub.Prelude.{◌≡◌, refl, List, [], ◌∷◌, map, any, All}
use socks_hub.Text.{Text, codes, trim_end_matches, is_dot}
use socks_hub.Io.{Result, ok}
use socks_hub.Acl.Rules.{check_host_matched}
use socks_hub.Acl.AccessControl.{
  AccessControl, black_list, load_from_file, Section, outbound_block, bypass, proxy,
}
use socks_hub.Acl.AccessControl.Lines.{rules_of}
use socks_hub.Acl.Reading.{Rule, tree, set}
use socks_hub.Acl.Reading.Sections.{names}
use socks_hub.Acl.Reading.Writing.{IsWritable, write_file, load_from_file-write_file}
use socks_hub.Tests.Plain.{plain}
use socks_hub.Tests.Access.{path, run_acl}
use socks_hub.Tests.Orders.{plain_laws}

abbrev pub rules : Section → List (Rule plain)
rules outbound_block = []
rules bypass = set (codes "ads.net") ∷ []
rules proxy = tree (codes "Example.org.") ∷ set (codes "a.b") ∷ []

abbrev files : Text → Result (List (Result Text))
files p = ok (map ok (write_file black_list rules))

written :
    write_file black_list rules
    ≡ codes "[proxy_all]"
      ∷ codes "[outbound_block_list]"
      ∷ codes "[bypass_list]"
      ∷ codes "|ads.net"
      ∷ codes "[proxy_list]"
      ∷ codes "||Example.org."
      ∷ codes "|a.b"
      ∷ []
written = refl

pub writable : (d : Section) → All IsWritable (rules d)
unfolding run_acl
writable outbound_block = tt
writable bypass = ((refl, refl, refl), tt)
writable proxy = ((refl, refl), ((refl, refl, refl), tt))

load_from_file-write_file_example :
    (acl : AccessControl plain) × (load_from_file plain files path ≡ ok acl)
    × (acl.mode ≡ black_list)
    × ((d : Section) (host : Text)
        → check_host_matched (rules_of d acl) host
          ≡ any (λ r. names r (trim_end_matches is_dot host)) (rules d))
load_from_file-write_file_example =
    load_from_file-write_file plain_laws files path black_list rules refl writable
