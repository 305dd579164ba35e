-- ===== src/Tests/Orders.antt =====
-- An ACL file, and one with the same rules in another order.
use mathlib.Core.List.{Subset, mem-cons_self, mem-cons_of_mem, cons-subset, nil-subset, Subset-refl}
use socks_hub.Prelude.{◌≡◌, refl, true, List, [], ◌∷◌, map, all, arith, if◌then◌else◌}
use socks_hub.Text.{Text, codes, eqb}
use socks_hub.Io.{Result, ok}
use socks_hub.Net.{IpAddr}
use socks_hub.Acl.Externals.{RegexLaws}
use socks_hub.Acl.Rules.{check_ip_matched, check_host_matched}
use socks_hub.Acl.AccessControl.{
  AccessControl, load_from_file, Section, outbound_block, bypass, proxy,
}
use socks_hub.Acl.AccessControl.Lines.{rules_of}
use socks_hub.Acl.Reading.{set, regex, read_line}
use socks_hub.Acl.Reading.Files.{file_rules, file_mode}
use socks_hub.Acl.Reading.RuleSets.{SameRules}
use socks_hub.Acl.Reading.Orders.{load_from_file-order}
use socks_hub.Tests.Plain.{plain, blocks_laws}
use socks_hub.Tests.Access.{path, lines, acl, run_acl}

abbrev moved : List Text
moved =
    codes "[black_list]"
    ∷ codes "plain"
    ∷ codes "|ads.net"
    ∷ codes "plain"
    ∷ codes "[proxy_all]"
    ∷ codes "[proxy_list]"
    ∷ codes "||Example.org."
    ∷ []

abbrev other : Text
other = codes "b.acl"

abbrev files : Text → Result (List (Result Text))
files p = if eqb p path then ok (map ok lines) else ok (map ok moved)

all-true : (ts : List Text) → true ≡ all (λ t. true) ts
all-true [] = refl
all-true (t ∷ ts) = all-true ts

pub plain_laws : RegexLaws plain (λ t. true) (λ t bytes. eqb t bytes)
plain_laws = record { build-all = all-true; is_match-any = λ ts s bytes e. ground arith }

swapped {ℓ} :
    {A : Type ℓ} (a b : A)
    → Subset (a ∷ b ∷ []) (b ∷ a ∷ b ∷ []) × Subset (b ∷ a ∷ b ∷ []) (a ∷ b ∷ [])
swapped a b = (
  cons-subset.1 (mem-cons_of_mem b mem-cons_self, cons-subset.1 (mem-cons_self, nil-subset _)),
  cons-subset.1 (
    mem-cons_of_mem a mem-cons_self,
    cons-subset.1 (mem-cons_self, cons-subset.1 (mem-cons_of_mem a mem-cons_self, nil-subset _)),
  ),
)

same_rules : (d : Section) → SameRules (file_rules plain d lines) (file_rules plain d moved)
unfolding run_acl read_line
same_rules outbound_block = (Subset-refl [], Subset-refl [])
same_rules bypass = swapped (set (codes "ads.net")) (regex (codes "plain"))
same_rules proxy = (Subset-refl _, Subset-refl _)

loaded : load_from_file plain files path ≡ ok acl
unfolding run_acl
loaded = refl

opened : files other ≡ ok (map ok moved)
unfolding eqb
opened = refl

mode : file_mode plain lines ≡ file_mode plain moved
unfolding run_acl read_line
mode = refl

load_from_file-order_example :
    (acl' : AccessControl plain) × (load_from_file plain files other ≡ ok acl')
    × (acl'.mode ≡ acl.mode)
    × ((d : Section) (host : Text)
        → check_host_matched (rules_of d acl') host ≡ check_host_matched (rules_of d acl) host)
    × ((d : Section) (ip : IpAddr)
        → check_ip_matched (rules_of d acl') ip ≡ check_ip_matched (rules_of d acl) ip)
unfolding eqb
load_from_file-order_example =
    load_from_file-order blocks_laws blocks_laws plain_laws files path other lines moved acl refl
      opened same_rules mode loaded
