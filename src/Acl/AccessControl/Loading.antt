-- ===== src/Acl/AccessControl/Loading.antt =====
-- Reading the lines of an ACL file: no line is an error, and each writes to one section at most.
use socks_hub.Prelude.{
  ◌≡◌, refl, inl, inr, true, List, [], ◌∷◌, map, some, arith, Bool-cases, Option-cases, if-both,
  ◌==◌,
}
use socks_hub.Text.{Text, codes, is_ascii, strip_prefix, trim}
use socks_hub.Io.{Result, ok}
use socks_hub.Acl.Externals.{Externals}
use socks_hub.Acl.ParsingRules.{ParsingRules, add_set_rule_inner, add_tree_rule_inner}
use socks_hub.Acl.AccessControl.{
  LoadState, Mode, Section, outbound_block, bypass, proxy, section, set_section, on_curr?,
  add_entry, load_directive, load_trimmed, load_line, load_lines, black_list, white_list,
}

pub is_ascii-strip_prefix :
    (p s : Text) {t : Text} → is_ascii s ≡ true → strip_prefix p s ≡ some t → is_ascii t ≡ true
unfolding is_ascii strip_prefix
is_ascii-strip_prefix [] s h e = ground arith
is_ascii-strip_prefix (a ∷ p) [] h e = ground arith
is_ascii-strip_prefix (a ∷ p) (b ∷ s) h e = elim (Bool-cases (a == b)) [
  | inl same ↦ is_ascii-strip_prefix p s (ground arith) (rw same at e)
  | inr other ↦ ground arith
]

-- `r` is a result that satisfies `P`.
abbrev pub Succeeds {ℓ κ} : {A : Type ℓ} → (A → Type κ) → Result A → Type (ℓ ⊔ κ)
Succeeds {A} P r = (a : A) × (r ≡ ok a) × P a

module _ {x : Externals} where
  section-set_section :
      (R : ParsingRules x → ParsingRules x → Type 0)
      → ((p : ParsingRules x) → R p p)
      → (c d : Section) (p : ParsingRules x) (s : LoadState x) → R (section c s) p
      → R (section d s) (section d (set_section c p s))
  section-set_section R same outbound_block outbound_block p s h = h
  section-set_section R same bypass bypass p s h = h
  section-set_section R same proxy proxy p s h = h
  section-set_section R same outbound_block d p s h = same (section d s)
  section-set_section R same bypass d p s h = same (section d s)
  section-set_section R same proxy d p s h = same (section d s)

  -- A rule of a line that is ASCII is never refused.
  pub add_tree_rule_inner-ascii :
      (p : ParsingRules x) (rule : Text)
      → is_ascii rule ≡ true
      → Succeeds (λ q. add_tree_rule_inner p rule ≡ ok q) (add_tree_rule_inner p rule)
  unfolding add_tree_rule_inner
  add_tree_rule_inner-ascii p rule h = rw h (_, refl, refl)

  pub add_set_rule_inner-ascii :
      (p : ParsingRules x) (rule : Text)
      → is_ascii rule ≡ true
      → Succeeds (λ q. add_set_rule_inner p rule ≡ ok q) (add_set_rule_inner p rule)
  unfolding add_set_rule_inner
  add_set_rule_inner-ascii p rule h = rw h (_, refl, refl)

-- A relation of a section before a line to the section behind it, which each way to add a rule
-- satisfies and which holds where nothing is added.
pub record IsKept {x : Externals} (R : ParsingRules x → ParsingRules x → Type 0) : Type 0 where
  pub same : (p : ParsingRules x) → R p p
  pub join : (p q r : ParsingRules x) → R p q → R q r → R p r
  pub tree_rule : (p q : ParsingRules x) (rule : Text) → add_tree_rule_inner p rule ≡ ok q → R p q
  pub set_rule : (p q : ParsingRules x) (rule : Text) → add_set_rule_inner p rule ≡ ok q → R p q
  pub entry : (p : ParsingRules x) (line : Text) → R p (add_entry line p)

module _ {x : Externals} (R : ParsingRules x → ParsingRules x → Type 0) (kept : IsKept R) where
  abbrev pub EachKept : LoadState x → LoadState x → Type 0
  EachKept s s' = (d : Section) → R (section d s) (section d s')

  unmoved :
      (s : LoadState x) (m : Mode) (c : Section) → EachKept s (record s { mode = m; curr = c })
  unmoved s m c outbound_block = kept.same _
  unmoved s m c bypass = kept.same _
  unmoved s m c proxy = kept.same _

  load_directive-EachKept : (s : LoadState x) (line : Text) → EachKept s (load_directive s line)
  unfolding load_directive
  load_directive-EachKept s line = if-both (EachKept s) _ (unmoved s white_list s.curr) (
      if-both (EachKept s) _ (unmoved s black_list s.curr) (
        if-both (EachKept s) _ (unmoved s s.mode outbound_block) (
          if-both (EachKept s) _ (unmoved s s.mode bypass) (
            if-both (EachKept s) _ (unmoved s s.mode proxy) (λ d.
              section-set_section R kept.same s.curr d (add_entry line (section s.curr s)) s
                (kept.entry (section s.curr s) line))))))

  on_curr?-EachKept :
      (f : ParsingRules x → Result (ParsingRules x)) (s : LoadState x)
      → Succeeds (R (section s.curr s)) (f (section s.curr s))
      → Succeeds (EachKept s) (on_curr? f s)
  on_curr?-EachKept f s (p, e, r) =
      (set_section s.curr p s, rw e refl, λ d. section-set_section R kept.same s.curr d p s r)

  tree_rule-kept :
      (rule : Text) (p : ParsingRules x)
      → is_ascii rule ≡ true
      → Succeeds (R p) (add_tree_rule_inner p rule)
  tree_rule-kept rule p h =
      let (q, e, _) = add_tree_rule_inner-ascii p rule h in (q, e, kept.tree_rule p q rule e)

  set_rule-kept :
      (rule : Text) (p : ParsingRules x)
      → is_ascii rule ≡ true
      → Succeeds (R p) (add_set_rule_inner p rule)
  set_rule-kept rule p h =
      let (q, e, _) = add_set_rule_inner-ascii p rule h in (q, e, kept.set_rule p q rule e)

  load_trimmed-EachKept :
      (s : LoadState x) (line : Text) → Succeeds (EachKept s) (load_trimmed s line)
  unfolding load_trimmed
  load_trimmed-EachKept s line = elim (Bool-cases (is_ascii line)) [
    | inr foreign ↦ rw foreign (s, refl, λ d. kept.same (section d s))
    | inl ascii ↦ rw ascii (elim (Option-cases (strip_prefix (codes "||") line)) [
      | inr (rule, tree) ↦
          rw (tree, load_trimmed)
            (on_curr?-EachKept (λ p. add_tree_rule_inner p rule) s
              (tree_rule-kept rule (section s.curr s) (is_ascii-strip_prefix _ line ascii tree)))
      | inl no_tree ↦ elim (Option-cases (strip_prefix (codes "|") line)) [
        | inr (rule, set) ↦
            rw (no_tree, set, load_trimmed)
              (on_curr?-EachKept (λ p. add_set_rule_inner p rule) s
                (set_rule-kept rule (section s.curr s) (is_ascii-strip_prefix _ line ascii set)))
        | inl no_set ↦
            rw (no_tree, no_set, load_trimmed)
              (load_directive s line, refl, load_directive-EachKept s line)
      ]
    ])
  ]

  load_line-EachKept : (s : LoadState x) (line : Text) → Succeeds (EachKept s) (load_line s line)
  unfolding load_line
  load_line-EachKept s line =
      if-both (Succeeds (EachKept s)) _ (s, refl, λ d. kept.same (section d s))
        (load_trimmed-EachKept s (trim line))

  -- Lines that can be read are never refused, and each section is kept.
  pub load_lines-EachKept :
      (s : LoadState x) (lines : List Text) → Succeeds (EachKept s) (load_lines s (map ok lines))
  unfolding load_lines
  load_lines-EachKept s [] = (s, refl, λ d. kept.same (section d s))
  load_lines-EachKept s (line ∷ lines) =
      let (t, e, r) = load_line-EachKept s line in
      let (u, e', r') = load_lines-EachKept t lines in
      (u, rw e e', λ d. kept.join (section d s) (section d t) (section d u) (r d) (r' d))
