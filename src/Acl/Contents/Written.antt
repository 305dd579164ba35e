-- ===== src/Acl/Contents/Written.antt =====
-- Reading back a file that has been written line by line.
use socks_hub.Prelude.{
  ℕ, ◌≡◌, refl, ap, ◌∙◌, Bool, true, false, not, ◌&&◌, List, [], ◌∷◌, ◌++◌, map, ◌==◌, arith, all,
  flat_map,
}
use mathlib.Core.List.{append_assoc}
use socks_hub.Text.{Text, eqb}
use socks_hub.Text.Utf8.{encode_char, as_bytes, as_bytes-append}
use socks_hub.Text.Utf8.Inverse.{is_char, from_utf8-as_bytes}
use socks_hub.Io.{Result, ok}
use socks_hub.Acl.Externals.{Externals}
use socks_hub.Acl.AccessControl.{load_from_file}
use socks_hub.Acl.Contents.{lf, cr, split_lines, chomp, decode_line, buf_lines, open_lines}

-- LF, or CR and LF.
abbrev pub ending : Bool → Text
ending false = lf ∷ []
ending true = cr ∷ lf ∷ []

-- The bytes of lines that are each ended so.
abbrev pub write_lines : Bool → List Text → List ℕ
write_lines crlf ls = flat_map (λ l. as_bytes (l ++ ending crlf)) ls

-- A character that a line may have.
abbrev is_inner : ℕ → Bool
is_inner c = is_char c && (not (c == lf) && not (c == cr))

abbrev pub is_line : Text → Bool
is_line l = all is_inner l

abbrev is_not_lf : ℕ → Bool
is_not_lf b = not (b == lf)

encode_char-not_lf : (c : ℕ) → is_not_lf c ≡ true → all is_not_lf (encode_char c) ≡ true
unfolding encode_char
encode_char-not_lf c h = ground arith

all-append : (p : ℕ → Bool) (s t : List ℕ) → all p (s ++ t) ≡ (all p s && all p t)
all-append p [] t = refl
all-append p (c ∷ s) t = ground (arith, all-append p s t)

as_bytes-not_lf : (l : Text) → all is_not_lf l ≡ true → all is_not_lf (as_bytes l) ≡ true
unfolding as_bytes
as_bytes-not_lf [] h = refl
as_bytes-not_lf (c ∷ l) h =
    let first = encode_char-not_lf c (ground arith) in
    let rest = as_bytes-not_lf l (ground arith) in
    all-append is_not_lf (encode_char c) (as_bytes l) ∙ rw (first, rest) refl

split_lines-append :
    (bytes rest : List ℕ)
    → all is_not_lf bytes ≡ true
    → split_lines (bytes ++ lf ∷ rest) ≡ (bytes ++ lf ∷ []) ∷ split_lines rest
unfolding split_lines
split_lines-append [] rest h = refl
split_lines-append (b ∷ bytes) rest h =
    let not_lf : (b == lf) ≡ false = ground arith in
    rw (split_lines-append bytes rest (ground arith), not_lf) refl

chomp-append : (crlf : Bool) (l : Text) → is_line l ≡ true → chomp (l ++ ending crlf) ≡ l
unfolding chomp eqb
chomp-append false [] h = refl
chomp-append true [] h = refl
chomp-append crlf (c ∷ l) h =
    let rest = chomp-append crlf l (ground arith) in
    let not_lf : (c == lf) ≡ false = ground arith in
    let not_cr : (c == cr) ≡ false = ground arith in rw (not_lf, not_cr) (ap (λ t. c ∷ t) rest)

line-chars : (l : Text) → is_line l ≡ true → (all is_char l ≡ true) × (all is_not_lf l ≡ true)
line-chars [] h = (refl, refl)
line-chars (c ∷ l) h =
    let (chars, inner) = line-chars l (ground arith) in (ground arith, ground arith)

split_lines-ended :
    (crlf : Bool) (l : Text) (rest : List ℕ)
    → all is_not_lf l ≡ true
    → split_lines (as_bytes (l ++ ending crlf) ++ rest)
      ≡ as_bytes (l ++ ending crlf) ∷ split_lines rest
unfolding as_bytes encode_char
split_lines-ended false l rest h =
    rw (as_bytes-append l (lf ∷ []), append_assoc)
      (split_lines-append (as_bytes l) rest (as_bytes-not_lf l h))
split_lines-ended true l rest h =
    let body : all is_not_lf (as_bytes l ++ cr ∷ []) ≡ true =
      all-append is_not_lf (as_bytes l) (cr ∷ []) ∙ rw (as_bytes-not_lf l h) refl in
    rw (as_bytes-append l (cr ∷ lf ∷ [])) (
      let read = split_lines-append (as_bytes l ++ cr ∷ []) rest body in
      simp (append_assoc, (simp (append_assoc) at read)))

ending-chars : (crlf : Bool) → all is_char (ending crlf) ≡ true
ending-chars false = refl
ending-chars true = refl

decode_line-ended :
    (crlf : Bool) (l : Text) → is_line l ≡ true → decode_line (as_bytes (l ++ ending crlf)) ≡ ok l
unfolding decode_line
decode_line-ended crlf l h =
    let chars : all is_char (l ++ ending crlf) ≡ true =
      all-append is_char l (ending crlf) ∙ rw ((line-chars l h).0) (ending-chars crlf) in
    rw (decode_line, from_utf8-as_bytes (l ++ ending crlf) chars) (rw (chomp-append crlf l h) refl)

buf_lines-write_lines :
    (crlf : Bool) (ls : List Text)
    → all is_line ls ≡ true
    → buf_lines (write_lines crlf ls) ≡ map ok ls
unfolding buf_lines split_lines
buf_lines-write_lines crlf [] h = refl
buf_lines-write_lines crlf (l ∷ ls) h =
    let line : is_line l ≡ true = ground arith in
    rw
      (
        split_lines-ended crlf l (write_lines crlf ls) (line-chars l line).1,
        decode_line-ended crlf l line,
      )
      (ap (λ rest. ok l ∷ rest) (buf_lines-write_lines crlf ls (ground arith)))

-- An ACL file that is the UTF-8 of lines, each of them ended by LF or each by CR and LF, loads as
-- just those lines, where no line has a CR or LF of its own.
pub load_from_file-write_lines :
    (x : Externals) (disk : Text → Result (List ℕ)) (path : Text) (crlf : Bool) (ls : List Text)
    → disk path ≡ ok (write_lines crlf ls)
    → all is_line ls ≡ true
    → load_from_file x (open_lines disk) path ≡ load_from_file x (λ p. ok (map ok ls)) path
unfolding load_from_file
load_from_file-write_lines x disk path crlf ls written h =
    rw (open_lines, written, buf_lines-write_lines crlf ls h) refl
