-- ===== src/Http2Socks/Authorization.antt =====
-- `get_proxy_authorization` and `verify_basic_authorization` of src/http2socks.rs.
use socks_hub.Prelude.{
  ℕ, ◌≡◌, sym, ap, ◌↔◌, Bool, true, false, List, ◌++◌, Option, none, some, arith,
}
use socks_hub.Text.{Text, codes, eqb, strip_prefix}
use socks_hub.Text.Utf8.{as_bytes}
use socks_hub.Text.Equality.{eqb_iff, eqb_refl}
use socks_hub.Base64.{
  standard, base64_decode, base64_encode, EngineLaws, base64_decode-base64_encode,
}
use socks_hub.Credentials
use socks_hub.Credentials.{Credentials, to_vec, or_empty}
use socks_hub.Credentials.Encoding.{IsBlank, is_empty_iff, no_colon, to_vec_iff}
use socks_hub.Http2Socks.World.{World, HttpRequest, HeaderName, authorization, proxy_authorization}

module _ (w : World) where
  -- The first of the two headers that the request has.
  unfoldable pub get_proxy_authorization : HttpRequest w → Option HeaderName × Option w.HeaderValue
  get_proxy_authorization req = elim (w.get req.headers authorization) [
    | some v ↦ (some authorization, some v)
    | none ↦ elim (w.get req.headers proxy_authorization) [
      | some v ↦ (some proxy_authorization, some v)
      | none ↦ (none, none)
    ]
  ]

  abbrev basic : Text
  basic = codes "Basic "

  -- The bytes that a header value carries: the chain of `and_then`s.
  unfoldable pub decode_basic : w.HeaderValue → Option (List ℕ)
  decode_basic v = elim (w.to_str v) [
    | none ↦ none
    | some s ↦ elim (strip_prefix basic s) [
      | none ↦ none
      | some t ↦ base64_decode w.base64 t standard
    ]
  ]

  abbrev carries : Option (List ℕ) → List ℕ → Bool
  carries none key = false
  carries (some v) key = eqb v key

  unfoldable pub verify_basic_authorization : Credentials → Option w.HeaderValue → Bool
  verify_basic_authorization credentials none = Credentials.is_empty credentials
  verify_basic_authorization credentials (some v) = carries (decode_basic v) (to_vec credentials)

  verify→decode :
      (c : Credentials) (v : w.HeaderValue)
      → verify_basic_authorization c (some v) ≡ true
      → decode_basic v ≡ some (to_vec c)
  unfolding verify_basic_authorization
  verify→decode c v h = go (decode_basic v) h
    where
      go : (o : Option (List ℕ)) → carries o (to_vec c) ≡ true → o ≡ some (to_vec c)
      go none e = ground arith
      go (some b) e = ap some ((eqb_iff b (to_vec c)).0 e)

  -- A request without either header is let in exactly when no user name and no password are set.
  pub verify-none_iff : (c : Credentials) → (verify_basic_authorization c none ≡ true) ↔ IsBlank c
  unfolding verify_basic_authorization
  verify-none_iff c = is_empty_iff c

  -- One header value opens the door to one pair of credentials only: where two servers accept it
  -- and no user name has a colon, they have the same user name and password.
  verify_unique :
      (c d : Credentials) (v : w.HeaderValue)
      → no_colon (or_empty c.username) ≡ true
      → no_colon (or_empty d.username) ≡ true
      → verify_basic_authorization c (some v) ≡ true
      → verify_basic_authorization d (some v) ≡ true
      → (as_bytes (or_empty c.username) ≡ as_bytes (or_empty d.username))
        × (as_bytes (or_empty c.password) ≡ as_bytes (or_empty d.password))
  verify_unique c d v hc hd vc vd =
      let p = verify→decode c v vc in
      let q = verify→decode d v vd in (to_vec_iff c d hc hd).0 (ground arith)

  -- A client whose header is the right credentials in the crate's base64 is let in, whatever they
  -- are, where the crate decodes what it encodes.
  verify_complete :
      (laws : EngineLaws w.base64) (c : Credentials) (v : w.HeaderValue)
      → w.to_str v ≡ some (codes "Basic " ++ base64_encode w.base64 (to_vec c) standard)
      → verify_basic_authorization c (some v) ≡ true
  unfolding verify_basic_authorization decode_basic strip_prefix
  verify_complete laws c v h =
      rw (h, decode_basic)
        (rw (base64_decode-base64_encode w.base64 laws (to_vec c) standard) (eqb_refl (to_vec c)))

  -- Over an engine that decodes what it encodes, the program checks a header that carries the
  -- base64 of credentials `d` exactly: where no user name has a colon, it lets the client in if and
  -- only if the user name and the password are those that it is configured with, byte by byte.
  pub verify-encoded_iff :
      (laws : EngineLaws w.base64) (c d : Credentials) (v : w.HeaderValue)
      → no_colon (or_empty c.username) ≡ true
      → no_colon (or_empty d.username) ≡ true
      → w.to_str v ≡ some (codes "Basic " ++ base64_encode w.base64 (to_vec d) standard)
      → (verify_basic_authorization c (some v) ≡ true) ↔ (
          (as_bytes (or_empty c.username) ≡ as_bytes (or_empty d.username))
          × (as_bytes (or_empty c.password) ≡ as_bytes (or_empty d.password)))
  unfolding verify_basic_authorization decode_basic strip_prefix
  verify-encoded_iff laws c d v hc hd carried =
      let decoded : decode_basic v ≡ some (to_vec d) =
        rw (carried, decode_basic)
          (base64_decode-base64_encode w.base64 laws (to_vec d) standard) in
      let (there, back) = to_vec_iff c d hc hd in
      let (equal, equal') = eqb_iff (to_vec d) (to_vec c) in
      rw (decoded) (λ e. there (sym (equal e)), λ same. equal' (sym (back same)))
