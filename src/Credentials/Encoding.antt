-- ===== src/Credentials/Encoding.antt =====
-- What the bytes of `to_vec` tell of the credentials.
use socks_hub.Prelude.{
  ℕ, ◌≡◌, ◌≢◌, refl, sym, ap, ◌∙◌, ◌↔◌, ◌⊎◌, inl, inr, Bool, true, not, List, [], ◌∷◌, ◌++◌, arith,
  is_nil, all, ◌==◌,
}
use socks_hub.Text.{Text}
use socks_hub.Text.Utf8.{as_bytes, encode_char, as_bytes-append}
use socks_hub.Credentials.{Credentials, or_empty, join_key, to_vec, is_empty}

-- No colon among the characters, or among the bytes.
abbrev pub no_colon : List ℕ → Bool
no_colon s = all (λ c. not (c == b':')) s

no_colon-encode_char :
    (c : ℕ) (s : List ℕ)
    → not (c == b':') ≡ true
    → no_colon s ≡ true
    → no_colon (encode_char c ++ s) ≡ true
unfolding encode_char
no_colon-encode_char c s h k = ground arith

-- A character other than the colon has no colon among its bytes.
no_colon-as_bytes : (s : Text) → no_colon s ≡ true → no_colon (as_bytes s) ≡ true
unfolding as_bytes
no_colon-as_bytes [] h = refl
no_colon-as_bytes (c ∷ s) h =
    no_colon-encode_char c (as_bytes s) (ground arith) (no_colon-as_bytes s (ground arith))

-- The first colon parts two byte strings alike.
split_at_colon :
    (u v p q : List ℕ)
    → no_colon u ≡ true
    → no_colon v ≡ true
    → u ++ b':' ∷ p ≡ v ++ b':' ∷ q
    → (u ≡ v) × (p ≡ q)
split_at_colon [] [] p q hu hv e = ground arith
split_at_colon [] (b ∷ v) p q hu hv e = ground arith
split_at_colon (a ∷ u) [] p q hu hv e = ground arith
split_at_colon (a ∷ u) (b ∷ v) p q hu hv e = ground (arith, split_at_colon u v p q)

-- Neither text is there.
abbrev pub IsBlank : Credentials → Type 0
IsBlank c = (or_empty c.username ≡ []) × (or_empty c.password ≡ [])

-- `to_vec` joins the two texts by a colon, unless there is neither.
join_key-cases :
    (u p : Text)
    → ((u ≡ []) × (p ≡ []) × (join_key u p ≡ [])) ⊎ (join_key u p ≡ as_bytes u ++ b':' ∷ as_bytes p)
unfolding as_bytes encode_char
join_key-cases [] [] = inl (refl, refl, refl)
join_key-cases [] (c ∷ p) = inr refl
join_key-cases (c ∷ u) [] = inr (as_bytes-append (c ∷ u) (b':' ∷ []))
join_key-cases (c ∷ u) (d ∷ p) = inr (as_bytes-append (c ∷ u) (b':' ∷ d ∷ p))

append-ne-nil : (u p : List ℕ) → u ++ b':' ∷ p ≢ []
append-ne-nil [] p e = ground arith
append-ne-nil (c ∷ u) p e = ground arith

-- `is_empty` holds exactly when there is neither a user name nor a password, or both are "".
pub is_empty_iff : (c : Credentials) → (is_empty c ≡ true) ↔ IsBlank c
unfolding is_empty
is_empty_iff c = (to (to_vec c) refl, λ b. unfold to_vec in rw (b.0, b.1) refl)
  where
    to : (v : List ℕ) → to_vec c ≡ v → is_nil v ≡ true → IsBlank c
    to (b ∷ v) e h = ground arith
    to [] e h = elim (join_key-cases (or_empty c.username) (or_empty c.password)) [
      | inl (nu, np, _) ↦ (nu, np)
      | inr joined ↦ absurd (append-ne-nil _ _ (sym joined ∙ e))
    ]

-- Two credentials whose user names have no colon and whose bytes agree are the same user name and
-- password, byte by byte.
to_vec_injective :
    (c d : Credentials)
    → no_colon (or_empty c.username) ≡ true
    → no_colon (or_empty d.username) ≡ true
    → to_vec c ≡ to_vec d
    → (as_bytes (or_empty c.username) ≡ as_bytes (or_empty d.username))
      × (as_bytes (or_empty c.password) ≡ as_bytes (or_empty d.password))
unfolding to_vec
to_vec_injective c d hc hd e =
    let u = or_empty c.username in
    let v = or_empty d.username in
    let p = or_empty c.password in
    let q = or_empty d.password in
    elim (join_key-cases u p) [
      | inl (nu, np, jc) ↦ elim (join_key-cases v q) [
        | inl (nv, nq, jd) ↦ (ap as_bytes (nu ∙ sym nv), ap as_bytes (np ∙ sym nq))
        | inr jd ↦ absurd (append-ne-nil _ _ (sym jd ∙ sym e ∙ jc))
      ]
      | inr jc ↦ elim (join_key-cases v q) [
        | inl (nv, nq, jd) ↦ absurd (append-ne-nil _ _ (sym jc ∙ e ∙ jd))
        | inr jd ↦
            split_at_colon (as_bytes u) (as_bytes v) (as_bytes p) (as_bytes q)
              (no_colon-as_bytes u hc) (no_colon-as_bytes v hd) (sym jc ∙ e ∙ jd)
      ]
    ]

as_bytes-nil : (s : Text) → as_bytes s ≡ [] → s ≡ []
unfolding as_bytes encode_char
as_bytes-nil [] e = refl
as_bytes-nil (c ∷ s) e = ground arith

join_key-as_bytes :
    (u p v q : Text)
    → as_bytes u ≡ as_bytes v
    → as_bytes p ≡ as_bytes q
    → join_key u p ≡ join_key v q
unfolding as_bytes
join_key-as_bytes u p v q same_user same_password = elim (join_key-cases u p) [
  | inl (nu, np, none_there) ↦
      let nv = as_bytes-nil v (sym same_user ∙ ap as_bytes nu) in
      let nq = as_bytes-nil q (sym same_password ∙ ap as_bytes np) in rw (nu, np, nv, nq) refl
  | inr joined ↦ elim (join_key-cases v q) [
    | inl (nv, nq, none_there) ↦
        let nu = as_bytes-nil u (same_user ∙ ap as_bytes nv) in
        let np = as_bytes-nil p (same_password ∙ ap as_bytes nq) in rw (nu, np, nv, nq) refl
    | inr joined' ↦ joined ∙ rw (same_user, same_password) refl ∙ sym joined'
  ]
]

-- The bytes of the credentials are those of the two texts.
pub to_vec_iff :
    (c d : Credentials)
    → no_colon (or_empty c.username) ≡ true
    → no_colon (or_empty d.username) ≡ true
    → (to_vec c ≡ to_vec d) ↔ (
        (as_bytes (or_empty c.username) ≡ as_bytes (or_empty d.username))
        × (as_bytes (or_empty c.password) ≡ as_bytes (or_empty d.password)))
unfolding to_vec
to_vec_iff c d hc hd = (to_vec_injective c d hc hd, λ same. join_key-as_bytes _ _ _ _ same.0 same.1)
