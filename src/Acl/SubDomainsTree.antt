-- ===== src/Acl/SubDomainsTree.antt =====
-- src/acl/sub_domains_tree.rs. A `HashMap<String, DomainPart>` is an association list that is read
-- from its front and written in place, so that a key stands in it once.
pub mod Coverage
pub mod Shape
pub mod Subdomain
use socks_hub.Prelude.{Bool, true, false, List, [], ◌∷◌, Option, none, some, if◌then◌else◌}
use socks_hub.Text.{Text, eqb, to_ascii_lowercase, rsplit_dot}

mutual
  pub data DomainPart : Type 0 where
    domain_part : Bool → Children → DomainPart

  pub data Children : Type 0 where
    nil : Children
    cons : Text → DomainPart → Children → Children

abbrev pub included : DomainPart → Bool
included (domain_part inc cs) = inc

abbrev pub children : DomainPart → Children
children (domain_part inc cs) = cs

-- `DomainPart::new`
abbrev pub new_part : DomainPart
new_part = domain_part false nil

-- `HashMap::get`
unfoldable pub get : Text → Children → Option DomainPart
get k nil = none
get k (cons j e m) = if eqb j k then some e else get k m

-- A write to the entry of a key, which `entry(…).or_insert_with(…)` has made if it was missing.
unfoldable pub put : Text → DomainPart → Children → Children
put k e nil = cons k e nil
put k e (cons j d m) = if eqb j k then cons j e m else cons j d (put k e m)

abbrev pub or_new : Option DomainPart → DomainPart
or_new none = new_part
or_new (some e) = e

-- What becomes of an entry that was not included, where `sub` is its map after the later rounds:
-- after the last part it is included and its map is cleared.
abbrev pub finish : List Text → Children → DomainPart
finish [] sub = domain_part true nil
finish (_ ∷ _) sub = domain_part false sub

-- The loop of `insert`; an included entry ends it with nothing changed.
unfoldable pub insert_parts : List Text → Children → Children
unfolding to_ascii_lowercase
insert_parts [] m = m
insert_parts (part ∷ parts) m =
    let key = to_ascii_lowercase part in
    let entry = or_new (get key m) in
    let sub = insert_parts parts (children entry) in
    if included entry then m else put key (finish parts sub) m

-- The loop of `contains`.
unfoldable pub contains_parts : List Text → Children → Bool
contains_parts [] m = false
contains_parts (part ∷ parts) m = elim (get part m) [
  | none ↦ false
  | some el ↦ if included el then true else contains_parts parts (children el)
]

pub record SubDomainsTree : Type 0 where
  pub root : Children

-- `SubDomainsTree::new`
abbrev pub empty : SubDomainsTree
empty = record { root = nil }

unfoldable pub insert : SubDomainsTree → Text → SubDomainsTree
unfolding insert_parts rsplit_dot get put
insert t value = record { root = insert_parts (rsplit_dot value) t.root }

unfoldable pub contains : SubDomainsTree → Text → Bool
unfolding contains_parts rsplit_dot get
contains t value = contains_parts (rsplit_dot value) t.root

unfoldable pub is_empty : SubDomainsTree → Bool
is_empty t = elim t.root [ nil ↦ true | cons _ _ _ ↦ false ]
