-- ===== src/Acl/SubDomainsTree/Subdomain.antt =====
-- The tree against its specification: which names it contains after any insertions.
use mathlib.Core.List.{reverse-append, reverse-reverse}
use socks_hub.Prelude.{
  ◌≡◌, ◌≢◌, refl, sym, ap, ◌∙◌, ◌↔◌, ◌⊎◌, inl, inr, Bool, true, false, ◌||◌, List, [], ◌∷◌, ◌++◌,
  foldl, reverse, arith, any, any_iff, Any, map-reverse,
}
use socks_hub.Text.{Text, split_dot, rsplit_dot, to_ascii_lowercase}
use socks_hub.Text.Equality.{eqb_iff, eqb_refl}
use socks_hub.Text.Labels.{
  join_dot, join_dot-split_dot, join_dot-append, split_dot-append, split_dot-ne-nil,
  split_dot-lower,
}
use socks_hub.Acl.SubDomainsTree.{SubDomainsTree, empty, insert, contains, contains_parts}
use socks_hub.Acl.SubDomainsTree.Coverage.{
  begins, lower_labels, contains_parts-insert_parts, contains_parts-nil,
}

-- A name is a domain or one of its subdomains: it ends in the domain, behind a dot.
abbrev pub IsSubdomain : Text → Text → Type 0
IsSubdomain host domain = (host ≡ domain) ⊎ ((x : Text) × (host ≡ x ++ b'.' ∷ domain))

-- The same, tested label by label.
unfoldable pub is_subdomain : Text → Text → Bool
unfolding begins
is_subdomain host domain = begins (rsplit_dot domain) (rsplit_dot host)

begins→append : (r h : List Text) → begins r h ≡ true → (c : List Text) × (h ≡ r ++ c)
unfolding begins
begins→append [] h e = (h, refl)
begins→append (l ∷ r) [] e = ground arith
begins→append (l ∷ r) (k ∷ h) e =
    let (c, p) = begins→append r h (ground arith) in (c, ground (arith, eqb_iff l k))

begins-append : (r c : List Text) → begins r (r ++ c) ≡ true
unfolding begins
begins-append [] c = refl
begins-append (l ∷ r) c = rw eqb_refl (begins-append r c)

-- Labels behind labels, read from the end.
split_dot-of-begins :
    (host domain : Text)
    → is_subdomain host domain ≡ true
    → (ls : List Text) × (split_dot host ≡ ls ++ split_dot domain)
unfolding is_subdomain rsplit_dot
split_dot-of-begins host domain e =
    let (c, p) = begins→append (reverse (split_dot domain)) (reverse (split_dot host)) e in
    (
      reverse c,
      sym (reverse-reverse (split_dot host))
          ∙ ap reverse p
          ∙ reverse-append (reverse (split_dot domain)) c
          ∙ ap (λ t. reverse c ++ t) (reverse-reverse (split_dot domain)),
    )

IsSubdomain-of-labels :
    (host domain : Text) (ls : List Text)
    → split_dot host ≡ ls ++ split_dot domain
    → IsSubdomain host domain
IsSubdomain-of-labels host domain [] e =
    inl (sym (join_dot-split_dot host) ∙ ap join_dot e ∙ join_dot-split_dot domain)
IsSubdomain-of-labels host domain (l ∷ ls) e = inr (
  join_dot (l ∷ ls),
  sym (join_dot-split_dot host)
      ∙ ap join_dot e
      ∙ join_dot-append l ls (split_dot domain) (split_dot-ne-nil domain)
      ∙ ap (λ t. join_dot (l ∷ ls) ++ b'.' ∷ t) (join_dot-split_dot domain),
)

is_subdomain-of-labels :
    (host domain : Text) (ls : List Text)
    → split_dot host ≡ ls ++ split_dot domain
    → is_subdomain host domain ≡ true
unfolding is_subdomain rsplit_dot
is_subdomain-of-labels host domain ls e =
    rw (e, reverse-append) (begins-append (reverse (split_dot domain)) (reverse ls))

pub is_subdomain_iff :
    (host domain : Text) → (is_subdomain host domain ≡ true) ↔ IsSubdomain host domain
is_subdomain_iff host domain = (to, from)
  where
    to : is_subdomain host domain ≡ true → IsSubdomain host domain
    to e = let (ls, p) = split_dot-of-begins host domain e in IsSubdomain-of-labels host domain ls p

    from : IsSubdomain host domain → is_subdomain host domain ≡ true
    from (inl e) = is_subdomain-of-labels host domain [] (ap split_dot e)
    from (inr (x, e)) =
        is_subdomain-of-labels host domain (split_dot x)
          (ap split_dot e ∙ split_dot-append x domain)

pub rsplit_dot-ne-nil : (s : Text) → rsplit_dot s ≢ []
unfolding rsplit_dot
rsplit_dot-ne-nil s e = split_dot-ne-nil s (sym (reverse-reverse (split_dot s)) ∙ ap reverse e)

lower_labels-rsplit_dot :
    (s : Text) → lower_labels (rsplit_dot s) ≡ rsplit_dot (to_ascii_lowercase s)
unfolding rsplit_dot
lower_labels-rsplit_dot s =
    map-reverse to_ascii_lowercase (split_dot s) ∙ ap reverse (sym (split_dot-lower s))

-- One insertion adds exactly the subdomains of the lowercased rule.
pub contains-insert :
    (t : SubDomainsTree) (rule host : Text)
    → contains (insert t rule) host
      ≡ (contains t host || is_subdomain host (to_ascii_lowercase rule))
unfolding contains insert is_subdomain
contains-insert t rule host =
    contains_parts-insert_parts (rsplit_dot rule) (rsplit_dot host) t.root (rsplit_dot-ne-nil rule)
    ∙ ap (λ r. contains_parts (rsplit_dot host) t.root || begins r (rsplit_dot host))
        (lower_labels-rsplit_dot rule)

pub contains-foldl-insert :
    (t : SubDomainsTree) (rules : List Text) (host : Text)
    → contains (foldl insert t rules) host
      ≡ (contains t host || any (λ rule. is_subdomain host (to_ascii_lowercase rule)) rules)
contains-foldl-insert t [] host = ground arith
contains-foldl-insert t (r ∷ rules) host =
    ground (arith, contains-foldl-insert (insert t r) rules host, contains-insert t r host)

pub contains-empty : (host : Text) → contains empty host ≡ false
unfolding contains
contains-empty host = contains_parts-nil (rsplit_dot host)

-- A tree that was built by insertions from the empty one contains exactly the subdomains of the
-- rules that were inserted, each rule lowercased, in whatever order and however often.
pub contains-foldl-insert_iff :
    (rules : List Text) (host : Text)
    → (contains (foldl insert empty rules) host ≡ true)
      ↔ Any (λ rule. IsSubdomain host (to_ascii_lowercase rule)) rules
contains-foldl-insert_iff rules host =
    let same = contains-foldl-insert empty rules host ∙ rw contains-empty in
    let reads =
      any_iff (λ rule. is_subdomain host (to_ascii_lowercase rule))
        (λ rule. IsSubdomain host (to_ascii_lowercase rule))
        (λ rule. is_subdomain_iff host (to_ascii_lowercase rule)) rules in
    (λ e. reads.0 (sym same ∙ e), λ h. same ∙ reads.1 h)
