-- ===== src/Credentials.antt =====
-- `Credentials` of src/config.rs, and its conversion to the SOCKS library's `UserKey`.
pub mod Encoding
use socks_hub.Prelude.{ℕ, Bool, true, false, List, [], ◌∷◌, ◌++◌, Option, none, some, is_nil}
use socks_hub.Text.{Text, codes}
use socks_hub.Text.Utf8.{as_bytes}
use socks_hub.Io.{Error, invalid_input, Result, ok, err}

pub record Credentials : Type 0 where
  pub username : Option Text
  pub password : Option Text

-- `Credentials::new`
abbrev pub new : Text → Text → Credentials
new username password = record { username = some username; password = some password }

-- `unwrap_or(&empty)`
abbrev pub or_empty : Option Text → Text
or_empty none = []
or_empty (some t) = t

-- The `match` of `to_vec`, by the two texts.
abbrev pub join_key : Text → Text → List ℕ
join_key [] [] = []
join_key [] p = as_bytes (b':' ∷ p)
join_key u [] = as_bytes (u ++ b':' ∷ [])
join_key u p = as_bytes (u ++ b':' ∷ p)

unfoldable pub to_vec : Credentials → List ℕ
to_vec c = join_key (or_empty c.username) (or_empty c.password)

unfoldable pub is_empty : Credentials → Bool
unfolding to_vec
is_empty c = is_nil (to_vec c)

-- `socks5_impl::protocol::UserKey`
pub record UserKey : Type 0 where
  pub username : Text
  pub password : Text

-- `TryFrom<Credentials> for UserKey`
unfoldable pub try_into : Credentials → Result UserKey
try_into c = elim c.username [
  | none ↦ err (record { kind = invalid_input; message = codes "username and password" })
  | some u ↦ elim c.password [
    | none ↦ err (record { kind = invalid_input; message = codes "username and password" })
    | some p ↦ ok (record { username = u; password = p })
  ]
]

-- `.try_into().ok()`
unfoldable pub user_key : Credentials → Option UserKey
unfolding try_into
user_key c = elim (try_into c) [ ok k ↦ some k | err e ↦ none ]
