-- ===== src/Acl/Contents/Stored.antt =====
-- The bytes of an ACL file that is written from its mode and its rules, and what `load_from_file`
-- of src/acl/mod.rs makes of them: Written and the lines of Reading/Writing together.
use socks_hub.Prelude.{
  ℕ, ◌≡◌, refl, ◌∙◌, Bool, true, List, [], ◌∷◌, ◌++◌, map, any, all, All, arith,
}
use socks_hub.Text.{Text, is_dot, trim_end_matches}
use socks_hub.Io.{Result, ok}
use socks_hub.Acl.Externals.{Externals, RegexLaws}
use socks_hub.Acl.Rules.{check_host_matched}
use socks_hub.Acl.AccessControl.{
  AccessControl, load_from_file, Mode, black_list, white_list, Section, outbound_block, bypass,
  proxy,
}
use socks_hub.Acl.AccessControl.Lines.{rules_of}
use socks_hub.Acl.Contents.{open_lines}
use socks_hub.Acl.Contents.Written.{is_line, write_lines, load_from_file-write_lines}
use socks_hub.Acl.Reading.{Rule}
use socks_hub.Acl.Reading.Sections.{names}
use socks_hub.Acl.Reading.Writing.{
  IsWritable, write_rule, header, write_mode, write_section, write_file, load_from_file-write_file,
}

is_line-header : (d : Section) → is_line (header d) ≡ true
is_line-header outbound_block = refl
is_line-header bypass = refl
is_line-header proxy = refl

is_line-write_mode : (m : Mode) → is_line (write_mode m) ≡ true
is_line-write_mode black_list = refl
is_line-write_mode white_list = refl

module _ {x : Externals} where
  -- No rule of these has a line feed, a carriage return or a number that is no character.
  abbrev pub are_lines : List (Rule x) → Bool
  are_lines rs = all (λ r. is_line (write_rule r)) rs

  are_lines-append :
      (rs : List (Rule x)) (rest : List Text)
      → are_lines rs ≡ true
      → all is_line rest ≡ true
      → all is_line (map write_rule rs ++ rest) ≡ true
  are_lines-append [] rest h k = k
  are_lines-append (r ∷ rs) rest h k =
      let first : is_line (write_rule r) ≡ true = ground arith in
      rw (first, are_lines-append rs rest (ground arith) k) refl

  write_section-lines :
      (d : Section) (rs : List (Rule x)) (rest : List Text)
      → are_lines rs ≡ true
      → all is_line rest ≡ true
      → all is_line (write_section d rs rest) ≡ true
  write_section-lines d rs rest h k = rw (is_line-header d, are_lines-append rs rest h k) refl

  write_file-lines :
      (m : Mode) (rules : Section → List (Rule x))
      → ((d : Section) → are_lines (rules d) ≡ true)
      → all is_line (write_file m rules) ≡ true
  write_file-lines m rules h =
      rw
        (
          is_line-write_mode m,
          write_section-lines outbound_block (rules outbound_block) _ (h outbound_block) (
              write_section-lines bypass (rules bypass) _ (h bypass)
                (write_section-lines proxy (rules proxy) [] (h proxy) refl)),
        )
        refl

-- The bytes of an ACL file that is written from a mode and from names for each section, each with
-- its subdomains (`||name`) or single (`|name`), in UTF-8 and with LF, or CR and LF, behind each
-- line, load: the list has that mode, and each section matches exactly the hosts that its own names
-- match, trailing dots of the host aside. This holds over a regex crate that keeps its laws, where
-- every name is ASCII and has no CR or LF, `trim` leaves every name's line as it is, and no single
-- name begins with a bar.
pub load_from_file-write_bytes :
    {x : Externals} {compiles : Text → Bool} {matches : Text → List ℕ → Bool}
    (laws : RegexLaws x compiles matches) (disk : Text → Result (List ℕ)) (path : Text)
    (crlf : Bool) (m : Mode) (rules : Section → List (Rule x))
    → disk path ≡ ok (write_lines crlf (write_file m rules))
    → ((d : Section) → All IsWritable (rules d))
    → ((d : Section) → are_lines (rules d) ≡ true)
    → (acl : AccessControl x) × (load_from_file x (open_lines disk) path ≡ ok acl)
      × (acl.mode ≡ m)
      × ((d : Section) (host : Text)
          → check_host_matched (rules_of d acl) host
            ≡ any (λ r. names r (trim_end_matches is_dot host)) (rules d))
load_from_file-write_bytes {x} laws disk path crlf m rules stored writable lines =
    let (acl, loaded, mode, said) =
      load_from_file-write_file laws (λ p. ok (map ok (write_file m rules))) path m rules refl
        writable in
    (
      acl,
      load_from_file-write_lines x disk path crlf (write_file m rules) stored
            (write_file-lines m rules lines)
          ∙ loaded,
      mode,
      said,
    )
