-- ===== src/Text/Ascii.antt =====
-- Lowercasing and trimming.
use socks_hub.Prelude.{ℕ, ◌≡◌, refl, ◌≢◌, false, Bool, true, ◌&&◌, ◌∷◌, [], ◌++◌, all, arith}
use socks_hub.Text.{
  Text, lower_char, to_ascii_lowercase, trim_end_matches, is_dot, is_ascii, trim, is_whitespace,
}

pub lower_char_idem : (c : ℕ) → lower_char (lower_char c) ≡ lower_char c
unfolding lower_char
lower_char_idem c = ground arith

-- Lowercasing neither makes nor loses a dot.
pub is_dot-lower_char : (c : ℕ) → is_dot (lower_char c) ≡ is_dot c
unfolding lower_char
is_dot-lower_char c = ground arith

pub to_ascii_lowercase_idem :
    (s : Text) → to_ascii_lowercase (to_ascii_lowercase s) ≡ to_ascii_lowercase s
unfolding to_ascii_lowercase
to_ascii_lowercase_idem [] = refl
to_ascii_lowercase_idem (c ∷ s) = cc (lower_char_idem c, to_ascii_lowercase_idem s)

all-append : (p : ℕ → Bool) (s t : Text) → all p (s ++ t) ≡ (all p s && all p t)
all-append p [] t = refl
all-append p (c ∷ s) t = ground (arith, all-append p s t)

-- What is trimmed off the end is not seen again.
pub trim_end_matches-append :
    (p : ℕ → Bool) (s t : Text)
    → all p t ≡ true
    → trim_end_matches p (s ++ t) ≡ trim_end_matches p s
unfolding trim_end_matches
trim_end_matches-append p [] [] h = refl
trim_end_matches-append p [] (c ∷ t) h = ground arith
trim_end_matches-append p (c ∷ s) t h =
    ground (arith, trim_end_matches-append p s t, all-append p s t)

pub is_ascii-trim_end_matches :
    (p : ℕ → Bool) (s : Text) → is_ascii s ≡ true → is_ascii (trim_end_matches p s) ≡ true
unfolding is_ascii trim_end_matches
is_ascii-trim_end_matches p [] h = refl
is_ascii-trim_end_matches p (c ∷ s) h = ground (arith, is_ascii-trim_end_matches p s)

-- A character that is no white space stays at the front.
pub trim-cons :
    (c : ℕ) (s : Text)
    → is_whitespace c ≡ false
    → trim (c ∷ s) ≡ c ∷ trim_end_matches is_whitespace s
unfolding trim
trim-cons c s h = unfold is_whitespace in ground arith

pub trim-hash : (s t : Text) → trim (b'#' ∷ s) ≢ b'|' ∷ t
trim-hash s t e = unfold is_whitespace in cc (trim-cons b'#' s refl)
