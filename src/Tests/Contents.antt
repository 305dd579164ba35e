-- ===== src/Tests/Contents.antt =====
-- An ACL file as bytes.
use socks_hub.Prelude.{◌≡◌, refl, List, [], ◌∷◌, map, ℕ, Bool, true, false, any}
use socks_hub.Text.{Text, codes, eqb, trim_end_matches, is_dot}
use socks_hub.Text.Utf8.{from_utf8}
use socks_hub.Io.{Result, ok, err}
use socks_hub.Acl.AccessControl.{
  AccessControl, black_list, load_from_file, Section, outbound_block, bypass, proxy,
}
use socks_hub.Acl.Contents.{buf_lines, split_lines, chomp, decode_line, open_lines}
use socks_hub.Acl.Contents.Written.{write_lines}
use socks_hub.Acl.Contents.Stored.{are_lines, load_from_file-write_bytes}
use socks_hub.Acl.Rules.{check_host_matched}
use socks_hub.Acl.AccessControl.Lines.{rules_of}
use socks_hub.Acl.Reading.Sections.{names}
use socks_hub.Acl.Reading.Writing.{write_file}
use socks_hub.Tests.Orders.{plain_laws}
use socks_hub.Tests.Writing.{rules, writable}
use socks_hub.Tests.Plain.{plain}
use socks_hub.Tests.Access.{path}

abbrev is_err : Result Text → Bool
is_err (ok t) = false
is_err (err e) = true

-- The last line has no line feed, and keeps its carriage return; a byte 255 makes its line invalid.
unended :
    (buf_lines (b'a' ∷ 13 ∷ 10 ∷ 10 ∷ 0xc3 ∷ 0xa9 ∷ 13 ∷ [])
      ≡ ok (codes "a") ∷ ok [] ∷ ok (0xe9 ∷ 13 ∷ []) ∷ [])
    × (map is_err (buf_lines (255 ∷ 10 ∷ b'a' ∷ [])) ≡ true ∷ false ∷ [])
unfolding buf_lines split_lines chomp decode_line from_utf8 eqb
unended = (refl, refl)

-- A file with CR and LF.
abbrev disk : Text → Result (List ℕ)
disk p = ok (write_lines true (write_file black_list rules))

lines_lem : (d : Section) → are_lines (rules d) ≡ true
lines_lem outbound_block = refl
lines_lem bypass = refl
lines_lem proxy = refl

load_from_file-write_bytes_example :
    (acl : AccessControl plain) × (load_from_file plain (open_lines disk) path ≡ ok acl)
    × (acl.mode ≡ black_list)
    × ((d : Section) (host : Text)
        → check_host_matched (rules_of d acl) host
          ≡ any (λ r. names r (trim_end_matches is_dot host)) (rules d))
load_from_file-write_bytes_example =
    load_from_file-write_bytes plain_laws disk path true black_list rules refl writable lines_lem
