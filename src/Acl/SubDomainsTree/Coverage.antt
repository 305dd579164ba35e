-- ===== src/Acl/SubDomainsTree/Coverage.antt =====
-- What a lookup sees of an insertion, over lists of labels.
use socks_hub.Prelude.{
  ◌≡◌, ◌≢◌, refl, Bool, true, false, ◌&&◌, ◌||◌, List, [], ◌∷◌, some, map, arith, if◌then◌else◌,
}
use socks_hub.Text.{Text, eqb, to_ascii_lowercase}
use socks_hub.Text.Equality.{eqb_iff}
use socks_hub.Acl.SubDomainsTree.{
  DomainPart, Children, domain_part, nil, cons, included, children, get, put, or_new, insert_parts,
  contains_parts,
}

pub get-put :
    (k j : Text) (e : DomainPart) (m : Children)
    → get j (put k e m) ≡ (if eqb k j then some e else get j m)
unfolding get put
get-put k j e nil = refl
get-put k j e (cons i d m) = ground (arith, eqb_iff i k, eqb_iff i j, eqb_iff k j, get-put k j e m)

-- One list of labels begins another.
unfoldable pub begins : List Text → List Text → Bool
begins [] h = true
begins (_ ∷ _) [] = false
begins (l ∷ r) (k ∷ h) = eqb l k && begins r h

abbrev pub lower_labels : List Text → List Text
lower_labels = map to_ascii_lowercase

pub contains_parts-nil : (h : List Text) → contains_parts h nil ≡ false
unfolding contains_parts get
contains_parts-nil [] = refl
contains_parts-nil (k ∷ h) = refl

-- A lookup through an entry that may be missing.
contains_parts-or_new :
    (k : Text) (h : List Text) (m : Children)
    → contains_parts (k ∷ h) m
      ≡ (included (or_new (get k m)) || contains_parts h (children (or_new (get k m))))
unfolding contains_parts
contains_parts-or_new k h m = ground (arith, contains_parts-nil h)

contains_parts-put :
    (k j : Text) (h : List Text) (e : DomainPart) (m : Children)
    → contains_parts (j ∷ h) (put k e m) ≡ (
        if eqb k j then (included e || contains_parts h (children e)) else contains_parts (j ∷ h) m)
unfolding contains_parts
contains_parts-put k j h e m = ground (arith, get-put k j e m)

-- One round of `insert`: what the rounds below do to the map of the entry shows at its key.
contains_parts-round :
    (k j : Text) (h : List Text) (b : Bool) (new : DomainPart) (m : Children)
    → (included new || contains_parts h (children new))
      ≡ (contains_parts h (children (or_new (get k m))) || b)
    → contains_parts (j ∷ h) (if included (or_new (get k m)) then m else put k new m)
      ≡ (contains_parts (j ∷ h) m || (eqb k j && b))
contains_parts-round k j h b new m below = ground (
  arith,
  eqb_iff k j,
  contains_parts-or_new j h m,
  contains_parts-or_new k h m,
  contains_parts-put k j h new m,
)

-- A map contains, after the insertion of the labels `r`, what it contained and what they begin.
pub contains_parts-insert_parts :
    (r h : List Text) (m : Children)
    → r ≢ []
    → contains_parts h (insert_parts r m) ≡ (contains_parts h m || begins (lower_labels r) h)
unfolding insert_parts begins
contains_parts-insert_parts [] h m ne = absurd (ne refl)
contains_parts-insert_parts (p ∷ r) [] m ne = unfold contains_parts in refl
contains_parts-insert_parts (p ∷ []) (k ∷ h) m ne =
    contains_parts-round (to_ascii_lowercase p) k h true (domain_part true nil) m (ground arith)
contains_parts-insert_parts (p ∷ q ∷ r) (k ∷ h) m ne =
    let key = to_ascii_lowercase p in
    let sub = children (or_new (get key m)) in
    contains_parts-round key k h (begins (lower_labels (q ∷ r)) h)
      (domain_part false (insert_parts (q ∷ r) sub)) m
      (contains_parts-insert_parts (q ∷ r) h sub (λ e. cc))
