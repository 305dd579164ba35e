-- ===== src/Tests/Plain.antt =====
-- A concrete stand-in for the crates: a network is a first address and a count, a range is a list
-- of networks, a set of expressions matches the names that it lists, and no line is a network.
use socks_hub.Prelude.{
  ℕ, ◌+◌, ◌≡◌, refl, Bool, true, false, ◌&&◌, ◌||◌, List, [], ◌∷◌, none, some, ltb, leb, any,
  is_nil, arith,
}
use socks_hub.Text.{Text, eqb, to_ascii_lowercase}
use socks_hub.Io.{ok}
use socks_hub.Acl.Externals.{Externals, RangeOps, RangeLaws}

abbrev pub Block : Type 0
Block = ℕ × ℕ

abbrev pub block_contains : Block → ℕ → Bool
block_contains (first, size) a = leb first a && ltb a (first + size)

abbrev pub blocks : RangeOps Block (List Block)
blocks = record {
  new = [];
  add = λ r n. n ∷ r;
  simplify = λ r. r;
  contains = λ r a. any (λ n. block_contains n a) r;
  is_empty = is_nil;
}

pub contains-add_lem :
    (r : List Block) (n : Block) (a : ℕ)
    → (block_contains n a || any (λ m. block_contains m a) r)
      ≡ (any (λ m. block_contains m a) r || block_contains n a)
contains-add_lem r n a = ground arith

pub contains-of_is_empty_lem :
    (r : List Block) (a : ℕ) → is_nil r ≡ true → any (λ m. block_contains m a) r ≡ false
contains-of_is_empty_lem [] a h = refl
contains-of_is_empty_lem (n ∷ r) a h = ground arith

abbrev pub blocks_laws : RangeLaws blocks block_contains
blocks_laws = record {
  contains-new = λ a. refl;
  contains-add = contains-add_lem;
  contains-simplify = λ r a. refl;
  contains-of_is_empty = contains-of_is_empty_lem;
}

abbrev pub plain : Externals
plain = record {
  Net4 = Block;
  Net6 = Block;
  Range4 = List Block;
  Range6 = List Block;
  RegexSet = List Text;
  range4 = blocks;
  range6 = blocks;
  net4_from = λ a. (a, 1);
  net6_from = λ a. (a, 1);
  parse_ip_net = λ line. none;
  parse_ip_addr = λ line. none;
  captures = λ pattern bytes. none;
  regex_set_build = λ patterns. ok patterns;
  regex_set_is_match = λ set host. any (λ t. eqb t host) set;
  regex_set_is_empty = is_nil;
  domain_to_ascii = λ host. some (to_ascii_lowercase host);
}
