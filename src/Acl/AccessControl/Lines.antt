-- ===== src/Acl/AccessControl/Lines.antt =====
-- The lines of an ACL file and the sections that they leave, up to the compiled rules.
use socks_hub.Prelude.{
  ℕ, ◌≡◌, refl, sym, ap, ◌∙◌, inl, inr, true, false, List, [], ◌∷◌, ◌++◌, map, arith, Bool-cases,
  ◌==◌, ==_iff,
}
use socks_hub.Text.{
  Text, codes, is_ascii, is_dot, strip_prefix, starts_with_char, trim, trim_end_matches,
}
use socks_hub.Text.Ascii.{trim-hash}
use socks_hub.Io.{Result, ok, err, ◌>>=◌, >>=-eq-ok}
use socks_hub.Acl.Externals.{Externals}
use socks_hub.Acl.Rules.{Rules, new_rules, check_host_matched}
use socks_hub.Acl.ParsingRules.{
  ParsingRules, add_tree_rule_inner, add_set_rule_inner, into_rules, compile_regex,
}
use socks_hub.Acl.ParsingRules.Hosts.{
  knows, Grows, add_tree_rule_inner-Grows, add_set_rule_inner-Grows, add_regex_rule-Grows,
}
use socks_hub.Acl.AccessControl.{
  AccessControl, LoadState, Section, outbound_block, bypass, proxy, section, on_curr?, add_entry,
  load_trimmed, load_line, load_lines, load_from_file, finish, start,
}
use socks_hub.Acl.AccessControl.Loading.{IsKept, load_lines-EachKept}

module _ {x : Externals} where
  -- The compiled rules of a section.
  abbrev pub rules_of : Section → AccessControl x → Rules x
  rules_of outbound_block acl = acl.outbound_block
  rules_of bypass acl = acl.black_list
  rules_of proxy acl = acl.white_list

  pub add_entry-Grows : (p : ParsingRules x) (line : Text) → Grows p (add_entry line p)
  unfolding add_entry
  add_entry-Grows p line host h = ground (arith, add_regex_rule-Grows p line host h)

  pub Grows-IsKept : IsKept {x = x} Grows
  Grows-IsKept = record {
    same = λ p host h. h;
    join = λ p q r f g host h. g host (f host h);
    tree_rule = add_tree_rule_inner-Grows;
    set_rule = add_set_rule_inner-Grows;
    entry = add_entry-Grows;
  }

  -- Lines that can be read are never refused, whatever they say, and no section forgets a host
  -- name that its set or tree rules know.
  load_lines_grow :
      (s : LoadState x) (lines : List Text)
      → (t : LoadState x) × (load_lines s (map ok lines) ≡ ok t)
        × ((d : Section) (host : Text)
            → knows (section d s) host ≡ true
            → knows (section d t) host ≡ true)
  load_lines_grow s lines = load_lines-EachKept Grows Grows-IsKept s lines

  -- Compiling a section keeps its host rules.
  pub into_rules-knows :
      (p : ParsingRules x) (r : Rules x) (host : Text)
      → into_rules p ≡ ok r
      → knows p (trim_end_matches is_dot host) ≡ true
      → check_host_matched r host ≡ true
  unfolding into_rules new_rules check_host_matched
  into_rules-knows p r host e h =
      let (set, compiled, made) = >>=-eq-ok (compile_regex x p.name p.rules_regex) _ e in
      ground arith

  -- A loaded file has compiled each of its three sections, and kept its mode.
  pub finish-sections :
      (path : Text) (s : LoadState x) (acl : AccessControl x)
      → finish path s ≡ ok acl
      → ((d : Section) → into_rules (section d s) ≡ ok (rules_of d acl))
        × (acl.mode ≡ s.mode)
        × (acl.file_path ≡ path)
  unfolding finish
  finish-sections path s acl e =
      let (outbound, o, e1) = >>=-eq-ok (into_rules s.outbound_block) _ e in
      let (black, b, e2) = >>=-eq-ok (into_rules s.bypass) _ e1 in
      let (white, w, made) = >>=-eq-ok (into_rules s.proxy) _ e2 in
      (each outbound black white o b w made, ground arith, ground arith)
    where
      each :
          (outbound black white : Rules x)
          → into_rules s.outbound_block ≡ ok outbound
          → into_rules s.bypass ≡ ok black
          → into_rules s.proxy ≡ ok white
          → ◌≡◌ {A = Result (AccessControl x)}
              (ok (record {
                outbound_block = outbound;
                black_list = black;
                white_list = white;
                mode = s.mode;
                file_path = path;
              }))
              (ok acl)
          → (d : Section) → into_rules (section d s) ≡ ok (rules_of d acl)
      each outbound black white o b w made outbound_block = ground arith
      each outbound black white o b w made bypass = ground arith
      each outbound black white o b w made proxy = ground arith

  pub load_lines-append :
      (s : LoadState x) (before rest : List Text)
      → load_lines s (map ok (before ++ rest))
        ≡ (load_lines s (map ok before) >>= λ t. load_lines t (map ok rest))
  unfolding load_lines
  load_lines-append s [] rest = refl
  load_lines-append s (line ∷ before) rest =
      go (load_line s line) (λ t. load_lines-append t before rest)
    where
      go :
          (r : Result (LoadState x))
          → ((t : LoadState x)
              → load_lines t (map ok (before ++ rest))
                ≡ (load_lines t (map ok before) >>= λ u. load_lines u (map ok rest)))
          → (r >>= λ t. load_lines t (map ok (before ++ rest)))
            ≡ ((r >>= λ t. load_lines t (map ok before)) >>= λ t. load_lines t (map ok rest))
      go (ok t) later = later t
      go (err e) later = refl

-- A line that is `bar` or more once trimmed is neither empty nor a comment.
load_line-bar :
    {x : Externals} (s : LoadState x) (line rest : Text)
    → trim line ≡ b'|' ∷ rest
    → load_line s line ≡ load_trimmed s (b'|' ∷ rest)
unfolding load_line
load_line-bar s [] rest h = unfold trim in ground arith
load_line-bar s (c ∷ l) rest h = elim (Bool-cases (c == b'#')) [
  | inl hash ↦ absurd (comment ((==_iff c b'#').0 hash))
  | inr other ↦ rw other (ap (load_trimmed s) h)
]
  where
    comment : c ≡ b'#' → ⊥
    comment e = trim-hash l rest (ap (λ (d : ℕ). trim (d ∷ l)) (sym e) ∙ h)

module _ {x : Externals} where
  pub load_line-tree :
      (s : LoadState x) (line rule : Text)
      → trim line ≡ codes "||" ++ rule
      → is_ascii rule ≡ true
      → load_line s line ≡ on_curr? (λ p. add_tree_rule_inner p rule) s
  unfolding load_trimmed is_ascii strip_prefix
  load_line-tree s line rule h ascii = load_line-bar s line (b'|' ∷ rule) h ∙ rw ascii refl

  pub load_line-set :
      (s : LoadState x) (line rule : Text)
      → trim line ≡ codes "|" ++ rule
      → starts_with_char b'|' rule ≡ false
      → is_ascii rule ≡ true
      → load_line s line ≡ on_curr? (λ p. add_set_rule_inner p rule) s
  load_line-set s line [] h no_bar ascii =
      load_line-bar s line [] h ∙ (unfold load_trimmed is_ascii strip_prefix in refl)
  load_line-set s line (c ∷ rule) h no_bar ascii =
      load_line-bar s line (c ∷ rule) h
      ∙ (unfold load_trimmed is_ascii strip_prefix in ground arith)

  -- Once the current section knows a host, the loaded rules of that section match it.
  pub retained :
      (s t : LoadState x) (after : List Text) (path : Text) (acl : AccessControl x) (d : Section)
      (host : Text)
      → load_lines s (map ok after) ≡ ok t
      → finish path t ≡ ok acl
      → knows (section d s) (trim_end_matches is_dot host) ≡ true
      → check_host_matched (rules_of d acl) host ≡ true
  retained s t after path acl d host loaded done h =
      let (u, e, kept) = load_lines-EachKept Grows Grows-IsKept s after in
      let same : u ≡ t = ground (arith, e, loaded) in
      into_rules-knows (section d t) (rules_of d acl) host ((finish-sections path t acl done).0 d)
        (rw same at (kept d (trim_end_matches is_dot host) h))

  -- The states around a line of a file that was loaded.
  pub load_lines-at :
      (before after : List Text) (line : Text) (here t : LoadState x)
      → load_lines (start x) (map ok before) ≡ ok here
      → load_lines (start x) (map ok (before ++ line ∷ after)) ≡ ok t
      → (s : LoadState x) × (load_line here line ≡ ok s) × (load_lines s (map ok after) ≡ ok t)
  unfolding load_lines
  load_lines-at before after line here t reached e =
      let split = sym (load_lines-append (start x) before (line ∷ after)) ∙ e in
      >>=-eq-ok (load_line here line) _ (rw reached at split)

  pub load_from_file-parts :
      (open_file : Text → Result (List (Result Text))) (path : Text) (lines : List Text)
      (acl : AccessControl x)
      → open_file path ≡ ok (map ok lines)
      → load_from_file x open_file path ≡ ok acl
      → (t : LoadState x) × (load_lines (start x) (map ok lines) ≡ ok t) × (finish path t ≡ ok acl)
  unfolding load_from_file
  load_from_file-parts open_file path lines acl opened loaded =
      >>=-eq-ok (load_lines (start x) (map ok lines)) _ (rw opened at loaded)
