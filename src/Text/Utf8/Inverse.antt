-- ===== src/Text/Utf8/Inverse.antt =====
-- Decoding the bytes of a text gives the text.
use socks_hub.Prelude.{
  ℕ, ◌+◌, ◌/◌, ◌%◌, ◌≡◌, refl, ◌∙◌, ap, inl, inr, Bool, true, false, ◌&&◌, ◌||◌, List, [], ◌∷◌,
  ◌++◌, some, ltb, leb, arith, all, Bool-cases,
}
use socks_hub.Text.{Text}
use socks_hub.Text.Utf8.{encode_char, as_bytes, from_utf8, two, three, four, decoded}

-- `char`: a code point that is no surrogate.
abbrev pub is_char : ℕ → Bool
is_char c = ltb c 0xd800 || (leb 0xe000 c && ltb c 0x110000)

decode-one :
    (c : ℕ) (s : List ℕ) → ltb c 0x80 ≡ true → from_utf8 (c ∷ s) ≡ decoded (some c) (from_utf8 s)
unfolding from_utf8
decode-one c [] h = ground arith
decode-one c (a ∷ []) h = ground arith
decode-one c (a ∷ b ∷ []) h = ground arith
decode-one c (a ∷ b ∷ d ∷ s) h = ground arith

two-encode :
    (c : ℕ) → ltb c 0x80 ≡ false → ltb c 0x800 ≡ true → two (0xc0 + c / 64) (0x80 + c % 64) ≡ some c
two-encode c h k = ground arith

three-encode :
    (c : ℕ)
    → ltb c 0x800 ≡ false
    → ltb c 0x10000 ≡ true
    → is_char c ≡ true
    → three (0xe0 + c / 4096) (0x80 + c / 64 % 64) (0x80 + c % 64) ≡ some c
three-encode c h k v = ground arith

four-encode :
    (c : ℕ)
    → ltb c 0x10000 ≡ false
    → is_char c ≡ true
    → four (0xf0 + c / 262144) (0x80 + c / 4096 % 64) (0x80 + c / 64 % 64) (0x80 + c % 64) ≡ some c
four-encode c h v = ground arith

decode-two :
    (a b : ℕ) (s : List ℕ)
    → ltb a 0x80 ≡ false
    → ltb a 0xe0 ≡ true
    → from_utf8 (a ∷ b ∷ s) ≡ decoded (two a b) (from_utf8 s)
unfolding from_utf8
decode-two a b [] h k = rw (h, k) refl
decode-two a b (c ∷ []) h k = rw (h, k) refl
decode-two a b (c ∷ d ∷ s) h k = rw (h, k) refl

decode-three :
    (a b c : ℕ) (s : List ℕ)
    → ltb a 0x80 ≡ false
    → ltb a 0xe0 ≡ false
    → ltb a 0xf0 ≡ true
    → from_utf8 (a ∷ b ∷ c ∷ s) ≡ decoded (three a b c) (from_utf8 s)
unfolding from_utf8
decode-three a b c [] h k l = rw (h, k) refl
decode-three a b c (d ∷ s) h k l = rw (h, k, l) refl

decode-four :
    (a b c d : ℕ) (s : List ℕ)
    → ltb a 0x80 ≡ false
    → ltb a 0xe0 ≡ false
    → ltb a 0xf0 ≡ false
    → from_utf8 (a ∷ b ∷ c ∷ d ∷ s) ≡ decoded (four a b c d) (from_utf8 s)
unfolding from_utf8
decode-four a b c d s h k l = rw (h, k, l) refl

decode-encode_char :
    (c : ℕ) (s : List ℕ)
    → is_char c ≡ true
    → from_utf8 (encode_char c ++ s) ≡ decoded (some c) (from_utf8 s)
unfolding encode_char
decode-encode_char c s v = elim (Bool-cases (ltb c 0x80)) [
  | inl one ↦ rw one (decode-one c s one)
  | inr many ↦ elim (Bool-cases (ltb c 0x800)) [
    | inl few ↦
        rw (many, few)
          (decode-two (0xc0 + c / 64) (0x80 + c % 64) s (ground arith) (ground arith)
            ∙ ap (λ o. decoded o (from_utf8 s)) (two-encode c many few))
    | inr more ↦ elim (Bool-cases (ltb c 0x10000)) [
      | inl basic ↦
          rw (many, more, basic)
            (decode-three (0xe0 + c / 4096) (0x80 + c / 64 % 64) (0x80 + c % 64) s (ground arith)
                (ground arith) (ground arith)
              ∙ ap (λ o. decoded o (from_utf8 s)) (three-encode c more basic v))
      | inr high ↦
          rw (many, more, high)
            (decode-four (0xf0 + c / 262144) (0x80 + c / 4096 % 64) (0x80 + c / 64 % 64)
                (0x80 + c % 64) s (ground arith) (ground arith) (ground arith)
              ∙ ap (λ o. decoded o (from_utf8 s)) (four-encode c high v))
    ]
  ]
]

-- A text of characters is read back from its bytes.
pub from_utf8-as_bytes : (t : Text) → all is_char t ≡ true → from_utf8 (as_bytes t) ≡ some t
unfolding as_bytes from_utf8
from_utf8-as_bytes [] h = refl
from_utf8-as_bytes (c ∷ t) h =
    decode-encode_char c (as_bytes t) (ground arith)
    ∙ ap (decoded (some c)) (from_utf8-as_bytes t (ground arith))
