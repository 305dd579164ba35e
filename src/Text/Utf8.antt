-- ===== src/Text/Utf8.antt =====
-- UTF-8, as `str::as_bytes` and `str::from_utf8` relate characters to bytes.
pub mod Inverse
use socks_hub.Prelude.{
  ℕ, ◌+◌, ◌-◌, ◌*◌, ◌/◌, ◌%◌, ◌≡◌, refl, Bool, true, ◌&&◌, ◌||◌, List, [], ◌∷◌, ◌++◌, Option, none,
  some, ltb, leb, if◌then◌else◌, arith,
}
use mathlib.Core.Option
use mathlib.Core.List.{append_assoc}
use socks_hub.Text.{Text, is_ascii}

-- The bytes of a character.
unfoldable pub encode_char : ℕ → List ℕ
encode_char c =
    if ltb c 0x80
    then c ∷ []
    else if ltb c 0x800
    then (0xc0 + c / 64) ∷ (0x80 + c % 64) ∷ []
    else if ltb c 0x10000
    then (0xe0 + c / 4096) ∷ (0x80 + c / 64 % 64) ∷ (0x80 + c % 64) ∷ []
    else (0xf0 + c / 262144) ∷ (0x80 + c / 4096 % 64) ∷ (0x80 + c / 64 % 64) ∷ (0x80 + c % 64) ∷ []

-- `str::as_bytes`
unfoldable pub as_bytes : Text → List ℕ
unfolding encode_char
as_bytes [] = []
as_bytes (c ∷ s) = encode_char c ++ as_bytes s

-- A continuation byte.
abbrev is_cont : ℕ → Bool
is_cont b = leb 0x80 b && ltb b 0xc0

-- The characters that the two, three and four bytes stand for, where they are in shortest form
-- and no surrogate.
abbrev pub two : ℕ → ℕ → Option ℕ
two a b =
    if leb 0xc2 a && ltb a 0xe0 && is_cont b then some ((a - 0xc0) * 64 + (b - 0x80)) else none

abbrev pub three : ℕ → ℕ → ℕ → Option ℕ
three a b c =
    let n = (a - 0xe0) * 4096 + (b - 0x80) * 64 + (c - 0x80) in
    if leb 0xe0 a
      && ltb a 0xf0
      && is_cont b
      && is_cont c
      && leb 0x800 n
      && (ltb n 0xd800 || leb 0xe000 n)
    then some n
    else none

abbrev pub four : ℕ → ℕ → ℕ → ℕ → Option ℕ
four a b c d =
    let n = (a - 0xf0) * 262144 + (b - 0x80) * 4096 + (c - 0x80) * 64 + (d - 0x80) in
    if leb 0xf0 a
      && ltb a 0xf5
      && is_cont b
      && is_cont c
      && is_cont d
      && leb 0x10000 n
      && ltb n 0x110000
    then some n
    else none

abbrev pub decoded : Option ℕ → Option Text → Option Text
decoded none rest = none
decoded (some c) rest = Option.map (λ s. c ∷ s) rest

-- `str::from_utf8`, with `none` for an invalid sequence.
unfoldable pub from_utf8 : List ℕ → Option Text
from_utf8 [] = some []
from_utf8 (a ∷ []) = if ltb a 0x80 then some (a ∷ []) else none
from_utf8 (a ∷ b ∷ []) =
    let after_one = from_utf8 (b ∷ []) in
    if ltb a 0x80 then decoded (some a) after_one else decoded (two a b) (some [])
from_utf8 (a ∷ b ∷ c ∷ []) =
    let after_one = from_utf8 (b ∷ c ∷ []) in
    let after_two = from_utf8 (c ∷ []) in
    if ltb a 0x80
    then decoded (some a) after_one
    else if ltb a 0xe0
    then decoded (two a b) after_two
    else decoded (three a b c) (some [])
from_utf8 (a ∷ b ∷ c ∷ d ∷ s) =
    let after_one = from_utf8 (b ∷ c ∷ d ∷ s) in
    let after_two = from_utf8 (c ∷ d ∷ s) in
    let after_three = from_utf8 (d ∷ s) in
    let after_four = from_utf8 s in
    if ltb a 0x80
    then decoded (some a) after_one
    else if ltb a 0xe0
    then decoded (two a b) after_two
    else if ltb a 0xf0
    then decoded (three a b c) after_three
    else decoded (four a b c d) after_four

-- An ASCII text is the list of its own bytes.
pub as_bytes-ascii : (s : Text) → is_ascii s ≡ true → as_bytes s ≡ s
unfolding as_bytes is_ascii
as_bytes-ascii [] h = refl
as_bytes-ascii (c ∷ s) h = ground (arith, as_bytes-ascii s)

pub from_utf8-ascii : (s : Text) → is_ascii s ≡ true → from_utf8 s ≡ some s
unfolding from_utf8 is_ascii
from_utf8-ascii [] h = refl
from_utf8-ascii (a ∷ []) h = ground arith
from_utf8-ascii (a ∷ b ∷ []) h = ground (arith, from_utf8-ascii (b ∷ []))
from_utf8-ascii (a ∷ b ∷ c ∷ []) h = ground (arith, from_utf8-ascii (b ∷ c ∷ []))
from_utf8-ascii (a ∷ b ∷ c ∷ d ∷ s) h = ground (arith, from_utf8-ascii (b ∷ c ∷ d ∷ s))

pub as_bytes-append : (s t : Text) → as_bytes (s ++ t) ≡ as_bytes s ++ as_bytes t
unfolding as_bytes
as_bytes-append [] t = refl
as_bytes-append (c ∷ s) t = simp (as_bytes-append s t, append_assoc)
