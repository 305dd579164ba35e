-- ===== src/Acl/SubDomainsTree/Shape.antt =====
-- The shape of the tree: lowercase keys, each once, and no subtree that a lookup cannot reach.
use socks_hub.Prelude.{
  ◌≡◌, ◌≢◌, refl, Bool, true, false, List, [], ◌∷◌, Option, none, some, foldl, arith, if◌then◌else◌,
  Bool-cases, inl, inr, is_nil, ◌&&◌,
}
use socks_hub.Text.{Text, eqb, to_ascii_lowercase, rsplit_dot}
use socks_hub.Text.Equality.{eqb_iff}
use socks_hub.Text.Ascii.{to_ascii_lowercase_idem}
use socks_hub.Acl.SubDomainsTree.{
  DomainPart, Children, domain_part, nil, cons, included, children, get, put, or_new, finish,
  insert_parts, SubDomainsTree, insert, is_empty,
}
use socks_hub.Acl.SubDomainsTree.Coverage.{get-put}
use socks_hub.Acl.SubDomainsTree.Subdomain.{rsplit_dot-ne-nil}

mutual
  -- An included entry keeps no map, and one that is not included leads on to some entry.
  pub data IsPrunedPart : DomainPart → Type 0 where
    leaf : IsPrunedPart (domain_part true nil)
    branch : {m : Children} → IsPruned m → m ≢ nil → IsPrunedPart (domain_part false m)

  pub data IsPruned : Children → Type 0 where
    none_left : IsPruned nil
    entry :
        {k : Text} {e : DomainPart} {m : Children}
        → get k m ≡ none
        → to_ascii_lowercase k ≡ k
        → IsPrunedPart e
        → IsPruned m
        → IsPruned (cons k e m)

put-ne-nil : (k : Text) (e : DomainPart) (m : Children) → put k e m ≢ nil
unfolding put
put-ne-nil k e nil h = ground arith
put-ne-nil k e (cons j d m) h = ground arith

put-IsPruned :
    {m : Children} (k : Text) (e : DomainPart)
    → to_ascii_lowercase k ≡ k
    → IsPrunedPart e
    → IsPruned m
    → IsPruned (put k e m)
unfolding put get
put-IsPruned k e low p none_left = entry refl low p none_left
put-IsPruned k e low p (entry {k = j} {e = d} {m = m} fresh jlow q h) =
    elim (Bool-cases (eqb j k)) [
      | inl same ↦ rw same (entry fresh jlow p h)
      | inr other ↦ rw other (
          entry (ground (arith, get-put k j e m, eqb_iff k j, eqb_iff j k)) jlow q
            (put-IsPruned k e low p h))
    ]

get-IsPrunedPart :
    {m : Children} (k : Text) (e : DomainPart) → IsPruned m → get k m ≡ some e → IsPrunedPart e
unfolding get
get-IsPrunedPart k e none_left h = ground arith
get-IsPrunedPart k e (entry {k = j} {e = d} fresh low q h) found = elim (Bool-cases (eqb j k)) [
  | inl same ↦ (let e' : d ≡ e = ground arith in rw e' at q)
  | inr other ↦ get-IsPrunedPart k e h (rw other at found)
]

-- The map that a round goes down to.
children-IsPruned : {m : Children} (k : Text) → IsPruned m → IsPruned (children (or_new (get k m)))
children-IsPruned {m} k h = go (get k m) refl
  where
    below : (e : DomainPart) → IsPrunedPart e → IsPruned (children e)
    below e leaf = none_left
    below e (branch b ne) = b

    go : (o : Option DomainPart) → get k m ≡ o → IsPruned (children (or_new o))
    go none e = none_left
    go (some e) found = below e (get-IsPrunedPart k e h found)

insert_parts-ne-nil : (r : List Text) (m : Children) → r ≢ [] → insert_parts r m ≢ nil
unfolding insert_parts
insert_parts-ne-nil [] m ne e = ne refl
insert_parts-ne-nil (p ∷ r) nil ne e = unfold get in put-ne-nil _ _ nil e
insert_parts-ne-nil (p ∷ r) (cons k d m) ne e = ground (
  arith,
  put-ne-nil (to_ascii_lowercase p)
      (finish r (insert_parts r (children (or_new (get (to_ascii_lowercase p) (cons k d m))))))
      (cons k d m),
)

insert_parts-IsPruned : (r : List Text) {m : Children} → IsPruned m → IsPruned (insert_parts r m)
unfolding insert_parts
insert_parts-IsPruned [] h = h
insert_parts-IsPruned (p ∷ r) {m} h =
    let key = to_ascii_lowercase p in
    let sub = children (or_new (get key m)) in
    keep (included (or_new (get key m))) (
      put-IsPruned key (finish r (insert_parts r sub)) (to_ascii_lowercase_idem p)
        (finish-IsPrunedPart r sub (insert_parts-IsPruned r (children-IsPruned key h))) h)
  where
    finish-IsPrunedPart :
        (r : List Text) (sub : Children)
        → IsPruned (insert_parts r sub)
        → IsPrunedPart (finish r (insert_parts r sub))
    finish-IsPrunedPart [] sub b = leaf
    finish-IsPrunedPart (q ∷ r) sub b = branch b (insert_parts-ne-nil (q ∷ r) sub (λ e. cc))

    keep : (b : Bool) {new : Children} → IsPruned new → IsPruned (if b then m else new)
    keep true n = h
    keep false n = n

-- Every insertion keeps the keys lowercase and distinct, and drops what no lookup can reach.
pub insert-IsPruned :
    (t : SubDomainsTree) (rule : Text) → IsPruned t.root → IsPruned (insert t rule).root
unfolding insert
insert-IsPruned t rule h = insert_parts-IsPruned (rsplit_dot rule) h

is_empty-insert : (t : SubDomainsTree) (rule : Text) → is_empty (insert t rule) ≡ false
unfolding is_empty insert
is_empty-insert t rule =
    not_nil (insert_parts (rsplit_dot rule) t.root)
      (insert_parts-ne-nil (rsplit_dot rule) t.root (rsplit_dot-ne-nil rule))
  where
    not_nil : (m : Children) → m ≢ nil → elim m [ nil ↦ true | cons _ _ _ ↦ false ] ≡ false
    not_nil nil ne = absurd (ne refl)
    not_nil (cons k e m) ne = refl

-- The tree is empty exactly when no rule has been inserted.
is_empty-foldl-insert :
    (t : SubDomainsTree) (rules : List Text)
    → is_empty (foldl insert t rules) ≡ (is_empty t && is_nil rules)
is_empty-foldl-insert t [] = ground arith
is_empty-foldl-insert t (r ∷ rules) =
    ground (arith, is_empty-foldl-insert (insert t r) rules, is_empty-insert t r)
