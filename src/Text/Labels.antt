-- ===== src/Text/Labels.antt =====
-- Domain names as lists of labels: `split_dot` against joining, appending and lowercasing.
use mathlib.Core.List.{append_assoc}
use socks_hub.Prelude.{
  ℕ, ◌≡◌, ◌≢◌, refl, ap, ◌∙◌, List, [], ◌∷◌, ◌++◌, map, arith, Bool-cases, inl, inr, if◌then◌else◌,
}
use socks_hub.Text.{Text, is_dot, push_head, split_dot, to_ascii_lowercase, lower_char}
use socks_hub.Text.Ascii.{is_dot-lower_char}

-- Labels joined by dots.
unfoldable pub join_dot : List Text → Text
join_dot [] = []
join_dot (l ∷ []) = l
join_dot (l ∷ k ∷ ls) = l ++ b'.' ∷ join_dot (k ∷ ls)

pub split_dot-ne-nil : (s : Text) → split_dot s ≢ []
unfolding split_dot
split_dot-ne-nil [] h = cc
split_dot-ne-nil (c ∷ s) h = go (split_dot s) h
  where
    go : (ls : List Text) → (if is_dot c then [] ∷ ls else push_head c ls) ≢ []
    go [] e = ground arith
    go (l ∷ ls) e = ground arith

join_dot-nil : (ls : List Text) → ls ≢ [] → join_dot ([] ∷ ls) ≡ b'.' ∷ join_dot ls
unfolding join_dot
join_dot-nil [] h = absurd (h refl)
join_dot-nil (l ∷ ls) h = refl

join_dot-push_head : (c : ℕ) (ls : List Text) → join_dot (push_head c ls) ≡ c ∷ join_dot ls
unfolding join_dot
join_dot-push_head c [] = refl
join_dot-push_head c (l ∷ []) = refl
join_dot-push_head c (l ∷ k ∷ ls) = refl

-- Splitting loses nothing.
pub join_dot-split_dot : (s : Text) → join_dot (split_dot s) ≡ s
unfolding split_dot
join_dot-split_dot [] = unfold join_dot in refl
join_dot-split_dot (c ∷ s) = elim (Bool-cases (is_dot c)) [
  | inl dot ↦
      rw dot
        (join_dot-nil (split_dot s) (split_dot-ne-nil s) ∙ ground (arith, join_dot-split_dot s))
  | inr other ↦
      rw other (join_dot-push_head c (split_dot s) ∙ ap (λ t. c ∷ t) (join_dot-split_dot s))
]

push_head-append :
    (c : ℕ) (ls ks : List Text) → ls ≢ [] → push_head c (ls ++ ks) ≡ push_head c ls ++ ks
push_head-append c [] ks h = absurd (h refl)
push_head-append c (l ∷ ls) ks h = refl

-- A dot separates the labels before it from those behind it.
pub split_dot-append : (s t : Text) → split_dot (s ++ b'.' ∷ t) ≡ split_dot s ++ split_dot t
unfolding split_dot
split_dot-append [] t = refl
split_dot-append (c ∷ s) t = elim (Bool-cases (is_dot c)) [
  | inl dot ↦ rw dot (ap (λ ls. [] ∷ ls) (split_dot-append s t))
  | inr other ↦ rw other (
      ap (push_head c) (split_dot-append s t)
      ∙ push_head-append c (split_dot s) (split_dot t) (split_dot-ne-nil s))
]

pub join_dot-append :
    (l : Text) (ls ks : List Text)
    → ks ≢ []
    → join_dot ((l ∷ ls) ++ ks) ≡ join_dot (l ∷ ls) ++ b'.' ∷ join_dot ks
unfolding join_dot
join_dot-append l [] [] h = absurd (h refl)
join_dot-append l [] (k ∷ ks) h = refl
join_dot-append l (m ∷ ls) ks h = simp (join_dot-append m ls ks h, append_assoc)

push_head-lower :
    (c : ℕ) (ls : List Text)
    → push_head (lower_char c) (map to_ascii_lowercase ls) ≡ map to_ascii_lowercase (push_head c ls)
unfolding to_ascii_lowercase
push_head-lower c [] = refl
push_head-lower c (l ∷ ls) = refl

-- Lowercasing a name lowercases its labels.
pub split_dot-lower :
    (s : Text) → split_dot (to_ascii_lowercase s) ≡ map to_ascii_lowercase (split_dot s)
unfolding split_dot to_ascii_lowercase
split_dot-lower [] = refl
split_dot-lower (c ∷ s) = elim (Bool-cases (is_dot c)) [
  | inl dot ↦ rw (is_dot-lower_char c, dot) (ap (λ ls. [] ∷ ls) (split_dot-lower s))
  | inr other ↦
      rw (is_dot-lower_char c, other)
        (ap (push_head (lower_char c)) (split_dot-lower s) ∙ push_head-lower c (split_dot s))
]
