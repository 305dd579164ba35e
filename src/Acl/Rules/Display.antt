-- ===== src/Acl/Rules/Display.antt =====
-- `Debug for Rules` of src/acl/mod.rs: a text with at most two of the patterns and of the entries.
-- The texts of the ranges and of the tree, and the patterns of a regular expression set, are
-- parameters; a set is listed in the order of the model's list.
use socks_hub.Prelude.{ℕ, List, [], ◌∷◌, ◌++◌, ◌≡◌, take, length, ltb, if◌then◌else◌, arith}
use socks_hub.Text.{Text, codes}
use socks_hub.Acl.Externals.{Externals}
use socks_hub.Acl.SubDomainsTree.{SubDomainsTree}
use socks_hub.Acl.Rules.{Rules}

-- `max_len`
abbrev max_len : ℕ
max_len = 2

-- The loop from its second round on.
abbrev further : List Text → Text
further [] = []
further (r ∷ rs) = codes ", " ++ (r ++ further rs)

abbrev listed : List Text → Text
listed [] = []
listed (r ∷ rs) = r ++ further rs

-- The entries that are shown, and whether there are more.
unfoldable pub write_entries : List Text → Text
write_entries entries =
    listed (take max_len entries) ++ (if ltb max_len (length entries) then codes ", ..." else [])

-- `Debug for SubDomainsTree`
unfoldable pub fmt_tree : SubDomainsTree → Text
fmt_tree tree = codes "SubDomainsTree { .. }"

module _ {x : Externals} (show4 : x.Range4 → Text) (show6 : x.Range6 → Text)
    (patterns : x.RegexSet → List Text) where
  unfoldable pub fmt_rules : Rules x → Text
  unfolding write_entries fmt_tree
  fmt_rules r =
      codes "Rules { ipv4: "
      ++ (show4 r.ipv4
          ++ (codes ", ipv6: "
              ++ (show6 r.ipv6
                  ++ (codes ", rule_regex: ["
                      ++ (write_entries (patterns r.rule_regex)
                          ++ (codes "], rule_set: ["
                              ++ (write_entries r.rule_set
                                  ++ (codes "], rule_tree: "
                                      ++ (fmt_tree r.rule_tree ++ codes " }")))))))))

-- Entries behind the third change nothing in what is shown.
write_entries-append :
    (a b c : Text) (more : List Text)
    → write_entries (a ∷ b ∷ c ∷ more) ≡ write_entries (a ∷ b ∷ c ∷ [])
unfolding write_entries
write_entries-append a b c more = ground arith
