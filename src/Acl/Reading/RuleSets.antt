-- ===== src/Acl/Reading/RuleSets.antt =====
-- The rules of a section as a set: in which order an ACL file lists them, and how often, is
-- forgotten. What a section matches is a function of the set.
use mathlib.Core.Bool.{Bool-set}
use mathlib.Core.Logic.{∥∥₁_elim}
use mathlib.Core.List.{Mem, Subset, mem-cons_self, mem-cons_of_mem}
use mathlib.Core.List.{Memᴰ}
use mathlib.Core.Quot
use mathlib.Core.Quot.{Quot}
use socks_hub.Prelude.{
  ℕ, ◌≡◌, refl, ap, sym, Bool, true, false, not, ◌||◌, List, [], ◌∷◌, any, arith, Bool-cases, inl,
  inr,
}
use socks_hub.Text.{Text, is_dot, trim_end_matches}
use socks_hub.Text.Utf8.{as_bytes}
use socks_hub.Net.{IpAddr}
use socks_hub.Acl.Externals.{Externals}
use socks_hub.Acl.Reading.{Rule, tree, set, network, regex, regexes}
use socks_hub.Acl.Reading.Sections.{names, encloses}

module _ {ℓ} {A : Type ℓ} (p : A → Bool) where
  any_of_mem : (a : A) (xs : List A) → p a ≡ true → Memᴰ a xs → any p xs ≡ true
  any_of_mem a [] h m = elim m [ ]
  any_of_mem a (x ∷ xs) h (Memᴰ.head e) = rw (sym e, h) refl
  any_of_mem a (x ∷ xs) h (Memᴰ.tail m) = ground (arith, any_of_mem a xs h m)

  mem_of_any : (xs : List A) → any p xs ≡ true → (a : A) × (Mem a xs × (p a ≡ true))
  mem_of_any [] h = ground arith
  mem_of_any (x ∷ xs) h = elim (Bool-cases (p x)) [
    | inl now ↦ (x, (mem-cons_self, now))
    | inr later ↦
        let (a, (there, holds)) = mem_of_any xs (ground arith) in
        (a, (mem-cons_of_mem x there, holds))
  ]

  any_of_Subset : (xs ys : List A) → Subset xs ys → any p xs ≡ true → any p ys ≡ true
  any_of_Subset xs ys sub h =
      let (a, (there, holds)) = mem_of_any xs h in
      ∥∥₁_elim (sub a there) (Bool-set (any p ys) true) (λ m. any_of_mem a ys holds m)

-- Two lists have the same rules.
abbrev pub SameRules : {x : Externals} → List (Rule x) → List (Rule x) → Type 0
SameRules rs ss = Subset rs ss × Subset ss rs

abbrev pub RuleSet : Externals → Type 0
RuleSet x = Quot (SameRules {x = x})

module _ {x : Externals} where
  abbrev pub set_of : List (Rule x) → RuleSet x
  set_of = Quot.mk

  pub any-SameRules :
      (p : Rule x → Bool) (rs ss : List (Rule x)) → SameRules rs ss → any p rs ≡ any p ss
  any-SameRules p rs ss (there, back) =
      ground (arith, any_of_Subset p rs ss there, any_of_Subset p ss rs back)

  -- Some rule of a set passes a test.
  unfoldable pub has_rule : (Rule x → Bool) → RuleSet x → Bool
  has_rule p = Quot.lift Bool-set (any p) (any-SameRules p)

  -- The text of a regular expression, and its test; the other rules have none.
  abbrev pub on_regex : (Text → Bool) → Rule x → Bool
  on_regex p (regex t) = p t
  on_regex p (tree t) = false
  on_regex p (set t) = false
  on_regex p (network n) = false

  pub any-regexes :
      (p : Text → Bool) (rs : List (Rule x)) → any p (regexes rs) ≡ any (on_regex p) rs
  any-regexes p [] = refl
  any-regexes p (tree t ∷ rs) = any-regexes p rs
  any-regexes p (set t ∷ rs) = any-regexes p rs
  any-regexes p (network n ∷ rs) = any-regexes p rs
  any-regexes p (regex t ∷ rs) = ap (λ b. p t || b) (any-regexes p rs)

  pub any-or :
      (p q : Rule x → Bool) (rs : List (Rule x)) → (any p rs || any q rs) ≡ any (λ r. p r || q r) rs
  any-or p q [] = refl
  any-or p q (r ∷ rs) = ground (arith, any-or p q rs)

module _ (x : Externals) (matches : Text → List ℕ → Bool) where
  -- Whether a rule names a host, by itself or by its regular expression.
  abbrev pub matches_host : Text → Rule x → Bool
  matches_host host r = names r host || on_regex (λ t. matches t (as_bytes host)) r

  -- Whether the rules of a section match a host, without the dots at its end.
  abbrev pub set_names : RuleSet x → Text → Bool
  set_names rs host = has_rule (matches_host (trim_end_matches is_dot host)) rs

module _ (x : Externals) (compiles : Text → Bool) where
  -- Whether all regular expressions of a section compile.
  abbrev pub set_compiles : RuleSet x → Bool
  set_compiles rs = not (has_rule (on_regex (λ t. not (compiles t))) rs)

module _ (x : Externals) (contains4 : x.Net4 → ℕ → Bool) (contains6 : x.Net6 → ℕ → Bool) where
  abbrev pub set_encloses : RuleSet x → IpAddr → Bool
  set_encloses rs ip = has_rule (λ r. encloses x contains4 contains6 r ip) rs
