-- ===== src/Acl/Contents.antt =====
-- The lines that `load_from_file` of src/acl/mod.rs reads: `File::open` gives the bytes of a file,
-- and `BufRead::lines` its lines, of which each is decoded by itself.
pub mod Stored
pub mod Written
use socks_hub.Prelude.{
  ℕ, Bool, true, false, ◌||◌, List, [], ◌∷◌, map, Option, none, some, ◌==◌, if◌then◌else◌,
}
use socks_hub.Text.{Text, codes, eqb}
use socks_hub.Text.Utf8.{from_utf8}
use socks_hub.Io.{Error, os, Result, ok, err}
use socks_hub.Acl.Externals.{Externals}
use socks_hub.Acl.AccessControl.{AccessControl, load_from_file}

abbrev pub lf : ℕ
lf = 10

abbrev pub cr : ℕ
cr = 13

abbrev put_first : ℕ → List (List ℕ) → List (List ℕ)
put_first b [] = (b ∷ []) ∷ []
put_first b (l ∷ ls) = (b ∷ l) ∷ ls

-- The parts that `read_until(b'\n')` takes, one after another, until the file is empty.
unfoldable pub split_lines : List ℕ → List (List ℕ)
split_lines [] = []
split_lines (b ∷ s) =
    let rest = split_lines s in if b == lf then (b ∷ []) ∷ rest else put_first b rest

-- The line without its line feed, and without a carriage return in front of that.
unfoldable pub chomp : Text → Text
unfolding eqb
chomp [] = []
chomp (c ∷ s) =
    let rest = chomp s in
    if eqb (c ∷ s) (lf ∷ []) || eqb (c ∷ s) (cr ∷ lf ∷ []) then [] else c ∷ rest

abbrev invalid_utf8 : Error
invalid_utf8 = record { kind = os; message = codes "stream did not contain valid UTF-8" }

unfoldable pub decode_line : List ℕ → Result Text
unfolding chomp
decode_line bytes = elim (from_utf8 bytes) [ none ↦ err invalid_utf8 | some t ↦ ok (chomp t) ]

-- `BufReader::new(fp).lines()`
unfoldable pub buf_lines : List ℕ → List (Result Text)
unfolding split_lines decode_line
buf_lines bytes = map decode_line (split_lines bytes)

-- `File::open`, with the lines.
abbrev pub open_lines : (Text → Result (List ℕ)) → Text → Result (List (Result Text))
open_lines disk path = elim (disk path) [ err e ↦ err e | ok bytes ↦ ok (buf_lines bytes) ]
