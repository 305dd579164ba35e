-- ===== src/Ffi/Open.antt =====
-- Which servers a C program can start.
use socks_hub.Prelude.{
  ◌≡◌, refl, ◌≢◌, ◌↔◌, ◌⊎◌, inl, inr, ℕ, true, false, List, [], ◌∷◌, none, some, Option, arith,
  Option-cases, Bool-cases,
}
use socks_hub.Text.{Text, eqb}
use socks_hub.Io.{Result, ok}
use socks_hub.Net.{SocketAddr}
use socks_hub.Credentials
use socks_hub.Credentials.{user_key, try_into, to_vec}
use socks_hub.Config.{Config, ProxyType, ArgVerbosity, get_credentials, get_s5_credentials}
use socks_hub.Acl.Externals.{Externals}
use socks_hub.Acl.Center.{Center, init_center, load_acl, must_proxied}
use socks_hub.Http2Socks.World.{
  World, HttpRequest, HeaderName, authorization, proxy_authorization, local, empty,
}
use socks_hub.Http2Socks.Authorization.{
  get_proxy_authorization, decode_basic, verify_basic_authorization,
}
use socks_hub.Http2Socks.Proxy.{proxy}
use socks_hub.Http2Socks.Proxy.Answers.{is_admitted, proxy-local_iff}
use socks_hub.Socks2Socks.Server.{no_auth, choose_auth}
use socks_hub.Ffi.{CCallback, runs, socks_hub_run, parsed}

module _ (w : World) where
  headers-cases :
      (req : HttpRequest w)
      → (get_proxy_authorization w req ≡ (none, none))
        ⊎ ((h : HeaderName) × ((v : w.HeaderValue) × (get_proxy_authorization w req
                ≡ (some h, some v))))
  unfolding get_proxy_authorization
  headers-cases req = elim (Option-cases (w.get req.headers authorization)) [
    | inr (v, found) ↦ inr (authorization, (v, ground arith))
    | inl missing ↦ elim (Option-cases (w.get req.headers proxy_authorization)) [
      | inr (v, found) ↦ inr (proxy_authorization, (v, ground arith))
      | inl missing' ↦ inl (ground arith)
    ]
  ]

  -- A header that carries something other than no byte at all.
  abbrev pub IsShown : HttpRequest w → Type 0
  IsShown req =
      (v : w.HeaderValue) × ((get_proxy_authorization w req).1 ≡ some v)
      × (decode_basic w v ≢ some [])

module _ (w : World) {x : Externals} (center : Center x) (config : Config)
    (unset : to_vec (get_credentials config) ≡ []) where
  -- Credentials that are not set match no header, or one that carries no byte.
  verify-unset_none : verify_basic_authorization w (get_credentials config) none ≡ true
  unfolding verify_basic_authorization Credentials.is_empty
  verify-unset_none = rw unset refl

  verify-unset_some :
      (v : w.HeaderValue)
      → (verify_basic_authorization w (get_credentials config) (some v) ≡ true)
        ↔ (decode_basic w v ≡ some [])
  unfolding verify_basic_authorization eqb
  verify-unset_some v = elim (Option-cases (decode_basic w v)) [
    | inl undecoded ↦ ground arith
    | inr ([], decoded) ↦ ground arith
    | inr (b ∷ bytes, decoded) ↦ ground arith
  ]

  refused→shown : (req : HttpRequest w) → is_admitted w center config req ≡ false → IsShown w req
  refused→shown req refused = elim (headers-cases w req) [
    | inl bare ↦ absurd (ground (arith, verify-unset_none))
    | inr (h, (v, found)) ↦
        (v, ground arith, λ blank. ground (arith, (verify-unset_some v).1 blank))
  ]

  shown→refused : (req : HttpRequest w) → IsShown w req → is_admitted w center config req ≡ false
  shown→refused req (v, found, shown) = elim (headers-cases w req) [
    | inl bare ↦ absurd (ground arith)
    | inr (h, (v', found')) ↦
        elim (Bool-cases (verify_basic_authorization w (get_credentials config) (some v))) [
          | inl entered ↦ absurd (shown ((verify-unset_some v).0 entered))
          | inr wrong ↦ ground arith
        ]
  ]

  -- 401 is the answer to such a request, and to no other.
  refused_iff :
      (req : HttpRequest w) → ((proxy w center config req).1 ≡ ok (local 401 empty)) ↔ IsShown w req
  refused_iff req =
      let (answered, answers) = proxy-local_iff w center config req 401 empty in
      (
        λ e. refused→shown req (ground (arith, answered e)),
        λ shown. answers (inl (shown→refused req shown, refl, refl)),
      )

-- A server that a C program starts listens and forwards where the program says; it asks no SOCKS5
-- client for credentials, and refuses an HTTP request by 401 exactly if the request carries an
-- authorization header, `Authorization` before `Proxy-Authorization`, that is not the base64 of no
-- byte at all; it shows no credentials to the SOCKS5 server, and, in a process that has set no list
-- before, proxies every host.
pub socks_hub_run_open :
    (parse : Text → Option SocketAddr) (source : ProxyType) (listen server : List ℕ)
    (level : ArgVerbosity) (callback : Option ℕ) (ctx : ℕ) (config : Config) (ccb : CCallback)
    (w : World) (x : Externals) (open_file : Text → Result (List (Result Text))) (host : Text)
    (center : Center x) (req : HttpRequest w)
    → (socks_hub_run parse source listen server level callback ctx).1 ≡ runs config ccb
    → (parsed parse listen ≡ some config.listen_addr)
      × (parsed parse server ≡ some config.server_addr)
      × (config.source_type ≡ source)
      × (choose_auth config ≡ no_auth)
      × (((proxy w center config req).1 ≡ ok (local 401 empty)) ↔ IsShown w req)
      × (user_key (get_s5_credentials config) ≡ none)
      × (must_proxied (init_center x open_file config none) host ≡ true)
unfolding socks_hub_run choose_auth get_credentials get_s5_credentials user_key to_vec init_center
    must_proxied load_acl try_into
socks_hub_run_open parse source listen server level callback ctx config ccb w x open_file host
      center req e =
    (
      ground arith,
      ground arith,
      ground arith,
      ground arith,
      refused_iff w center config (ground arith) req,
      ground arith,
      ground arith,
    )
