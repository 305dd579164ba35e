-- ===== src/Socks2Socks/Server.antt =====
-- `main_entry` of src/socks2socks.rs up to its accept loop: which authentication it asks for.
use socks_hub.Prelude.{
  ◌≡◌, ◌≢◌, refl, ◌↔◌, false, none, some, arith, Bool-cases, inl, inr, ap, sym, ◌∙◌, [],
}
use socks_hub.Text.{Text}
use socks_hub.Credentials.{or_empty}
use socks_hub.Config.{Config, get_credentials}
use socks_hub.Io.{ok}
use socks_hub.Acl.Externals.{Externals}
use socks_hub.Acl.Center.{Center}
use socks_hub.Http2Socks.World.{World, HttpRequest, local, empty}
use socks_hub.Http2Socks.Authorization.{
  get_proxy_authorization, verify_basic_authorization, verify-none_iff,
}
use socks_hub.Http2Socks.Proxy.{is_connect, proxy}
use socks_hub.Http2Socks.Proxy.Safety.{proxy_refuses}

-- `auth::UserKeyAuth::new(&username, &password)` or `auth::NoAuth`
pub data Auth : Type 0 where
  user_key_auth : Text → Text → Auth
  no_auth : Auth

unfoldable pub choose_auth : Config → Auth
choose_auth config = elim (get_credentials config).username [
  | none ↦ no_auth
  | some username ↦ elim (get_credentials config).password [
    | none ↦ no_auth
    | some password ↦ user_key_auth username password
  ]
]

-- A configuration with a user name that is not empty and no password makes the SOCKS5 server ask no
-- client for credentials, while the HTTP server under the same configuration answers 401, and does
-- nothing else, to every request that carries neither of the two authorization headers, unless it
-- is a CONNECT.
pub choose_auth-username_only :
    (w : World) {x : Externals} (center : Center x) (config : Config) (u : Text)
    (req : HttpRequest w)
    → config.username ≡ some u
    → config.password ≡ none
    → u ≢ []
    → get_proxy_authorization w req ≡ (none, none)
    → is_connect req.method ≡ false
    → (choose_auth config ≡ no_auth) × (proxy w center config req ≡ ([], ok (local 401 empty)))
unfolding choose_auth get_credentials
choose_auth-username_only w center config u req name no_word given bare plain = (
  rw (name, no_word, choose_auth) refl,
  proxy_refuses w center config req (ground arith)
      (elim (Bool-cases (verify_basic_authorization w (get_credentials config) none)) [
        | inr refused ↦ rw bare refused
        | inl entered ↦ absurd (
            given
              (ap or_empty (sym name) ∙ ((verify-none_iff w (get_credentials config)).0 entered).0))
      ]),
)

-- The SOCKS5 server asks for a user name and a password exactly when both are set, and then for
-- those.
choose_auth_iff :
    (config : Config) (u p : Text)
    → (choose_auth config ≡ user_key_auth u p)
      ↔ ((config.username ≡ some u) × (config.password ≡ some p))
unfolding choose_auth get_credentials
choose_auth_iff config u p = ground arith
