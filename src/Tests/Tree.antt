-- ===== src/Tests/Tree.antt =====
-- The subdomain tree on small inputs.
use socks_hub.Prelude.{◌≡◌, refl, ◌↔◌, true, false, List, [], ◌∷◌, foldl, Any}
use socks_hub.Text.{Text, codes, eqb, to_ascii_lowercase}
use socks_hub.Acl.SubDomainsTree.{empty, insert, contains}
use socks_hub.Acl.SubDomainsTree.Subdomain.{IsSubdomain, contains-foldl-insert_iff}
use socks_hub.Acl.SubDomainsTree.Shape.{IsPruned, none_left, insert-IsPruned}

abbrev rules : List Text
rules = codes "a.Example.org" ∷ codes "EXAMPLE.org" ∷ codes "x.net" ∷ []

tree_tests :
    (contains (foldl insert empty rules) (codes "www.example.org") ≡ true)
    × (contains (foldl insert empty rules) (codes "example.org") ≡ true)
    × (contains (foldl insert empty rules) (codes "badexample.org") ≡ false)
    × (contains (foldl insert empty rules) (codes "net") ≡ false)
unfolding insert contains eqb
tree_tests = (refl, refl, refl, refl)

contains-foldl-insert_iff_example :
    (contains (foldl insert empty rules) (codes "www.example.org") ≡ true)
    ↔ Any (λ rule. IsSubdomain (codes "www.example.org") (to_ascii_lowercase rule)) rules
contains-foldl-insert_iff_example = contains-foldl-insert_iff rules (codes "www.example.org")

insert-IsPruned_example : IsPruned (insert empty (codes "a.B")).root
insert-IsPruned_example = insert-IsPruned empty (codes "a.B") none_left
