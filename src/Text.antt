-- ===== src/Text.antt =====
-- The standard library's `str` operations that src/acl and src/http2socks.rs call. A text is the
-- list of its characters' code points; an ASCII text is thereby also the list of its bytes.
pub mod Equality
pub mod Ascii
pub mod Labels
pub mod Utf8
use Prim.Native.Char.{code}
use socks_hub.Prelude.{
  ℕ, ◌+◌, String, Bool, true, false, not, ◌&&◌, ◌||◌, List, [], ◌∷◌, ◌++◌, map, reverse, Option,
  none, some, ltb, leb, ◌==◌, if◌then◌else◌, all,
}

abbrev pub Text : Type 0
Text = List ℕ

-- The code points of a literal.
abbrev pub codes : String → Text
codes String.[] = []
codes (String.◌∷◌ c s) = code c ∷ codes s

unfoldable pub eqb : Text → Text → Bool
eqb [] [] = true
eqb [] (_ ∷ _) = false
eqb (_ ∷ _) [] = false
eqb (a ∷ s) (b ∷ t) = a == b && eqb s t

-- `u8::is_ascii`, `str::is_ascii`
abbrev pub is_ascii_char : ℕ → Bool
is_ascii_char c = ltb c 128

unfoldable pub is_ascii : Text → Bool
is_ascii s = all is_ascii_char s

-- `to_ascii_lowercase`, `make_ascii_lowercase`
unfoldable pub lower_char : ℕ → ℕ
lower_char c = if leb b'A' c && leb c b'Z' then c + 32 else c

unfoldable pub to_ascii_lowercase : Text → Text
unfolding lower_char
to_ascii_lowercase s = map lower_char s

-- `s.strip_prefix(p)`
unfoldable pub strip_prefix : Text → Text → Option Text
strip_prefix [] s = some s
strip_prefix (_ ∷ _) [] = none
strip_prefix (a ∷ p) (b ∷ s) = if a == b then strip_prefix p s else none

-- `s.starts_with(c)` for a character
abbrev pub starts_with_char : ℕ → Text → Bool
starts_with_char c [] = false
starts_with_char c (d ∷ s) = d == c

-- Remove the leading characters that satisfy `p`; `trim_start_matches`.
unfoldable pub trim_start_matches : (ℕ → Bool) → Text → Text
trim_start_matches p [] = []
trim_start_matches p (c ∷ s) = if p c then trim_start_matches p s else c ∷ s

-- `trim_end_matches`: a character that satisfies `p` goes when all behind it does.
unfoldable pub trim_end_matches : (ℕ → Bool) → Text → Text
trim_end_matches p [] = []
trim_end_matches p (c ∷ s) = if p c && all p s then [] else c ∷ trim_end_matches p s

-- The characters with the Unicode property White_Space.
unfoldable pub is_whitespace : ℕ → Bool
is_whitespace c =
    (leb 9 c && leb c 13)
    || c == 32
    || c == 0x85
    || c == 0xa0
    || c == 0x1680
    || (leb 0x2000 c && leb c 0x200a)
    || c == 0x2028
    || c == 0x2029
    || c == 0x202f
    || c == 0x205f
    || c == 0x3000

-- `str::trim`
unfoldable pub trim : Text → Text
unfolding trim_start_matches trim_end_matches is_whitespace
trim s = trim_end_matches is_whitespace (trim_start_matches is_whitespace s)

abbrev pub is_dot : ℕ → Bool
is_dot c = c == b'.'

-- Put a character before the first label.
abbrev pub push_head : ℕ → List Text → List Text
push_head c [] = (c ∷ []) ∷ []
push_head c (l ∷ ls) = (c ∷ l) ∷ ls

-- `s.split('.')`: never empty, and "" has the one label "".
unfoldable pub split_dot : Text → List Text
split_dot [] = [] ∷ []
split_dot (c ∷ s) = let rest = split_dot s in if is_dot c then [] ∷ rest else push_head c rest

-- `s.rsplit('.')`: the same labels from the last to the first.
unfoldable pub rsplit_dot : Text → List Text
unfolding split_dot
rsplit_dot s = reverse (split_dot s)

-- `s.replace("\\.", ".")`: each backslash before a dot is dropped.
unfoldable pub replace_escaped_dots : Text → Text
replace_escaped_dots [] = []
replace_escaped_dots (c ∷ []) = c ∷ []
replace_escaped_dots (c ∷ d ∷ s) =
    let rest = replace_escaped_dots (d ∷ s) in if c == 92 && d == b'.' then rest else c ∷ rest
