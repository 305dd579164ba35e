-- ===== src/Http2Socks/Proxy/Answers.antt =====
-- What `proxy` answers by itself.
use socks_hub.Prelude.{
  ◌≡◌, ◌≢◌, ◌↔◌, ◌⊎◌, inl, inr, ℕ, Bool, true, false, not, ◌||◌, List, [], Option, none, some,
  arith, Bool-cases,
}
use socks_hub.Text.{Text, codes}
use socks_hub.Text.Utf8.{as_bytes}
use socks_hub.Io.{ok}
use socks_hub.Config.{Config, get_credentials}
use socks_hub.Acl.Externals.{Externals}
use socks_hub.Acl.Center.{Center}
use socks_hub.Network.{create_s5_connect}
use socks_hub.Http2Socks.World.{World, HeaderName, HttpRequest, local}
use socks_hub.Http2Socks.Authorization.{get_proxy_authorization, verify_basic_authorization}
use socks_hub.Http2Socks.Proxy.{
  is_connect, without, is_checked, forward, proxy_connect, proxy_plain, proxy_internal, proxy,
}

module _ (w : World) {x : Externals} (center : Center x) (config : Config) where
  -- Whether the client is let in.
  abbrev pub is_admitted : HttpRequest w → Bool
  is_admitted req =
      not (is_checked w center config req)
      || verify_basic_authorization w (get_credentials config) (get_proxy_authorization w req).1

  -- The program's own answers: 401 to a client that is not let in, and for CONNECT 400 where the
  -- target has no host, and 200 where it has one.
  abbrev pub IsOwnAnswer : HttpRequest w → ℕ → List ℕ → Type 0
  IsOwnAnswer req status body =
      ((is_admitted req ≡ false) × (status ≡ 401) × (body ≡ []))
      ⊎ (((is_admitted req ≡ true)
            × (is_connect req.method ≡ true)
            × (req.host ≡ none)
            × (status ≡ 400)
            × (body ≡ as_bytes (codes "CONNECT must be to a socket address")))
          ⊎ ((is_admitted req ≡ true)
              × (is_connect req.method ≡ true)
              × ((host : Text) × (req.host ≡ some host))
              × (status ≡ 200)
              × (body ≡ [])))

  connect-local_iff :
      (req : HttpRequest w) (status : ℕ) (body : List ℕ)
      → ((proxy_connect w center config req).1 ≡ ok (local status body)) ↔ (
          ((req.host ≡ none)
            × (status ≡ 400)
            × (body ≡ as_bytes (codes "CONNECT must be to a socket address")))
          ⊎ (((host : Text) × (req.host ≡ some host)) × (status ≡ 200) × (body ≡ [])))
  unfolding proxy_connect
  connect-local_iff req status body = ground arith

  plain-not-local :
      (req : HttpRequest w) (status : ℕ) (body : List ℕ)
      → (proxy_plain w center config req).1 ≢ ok (local status body)
  unfolding proxy_plain proxy_internal create_s5_connect
  plain-not-local req status body = λ e. ground arith

  -- The answers are those of the request without its header, which has the same method and target.
  forward-local_iff :
      (header : Option HeaderName) (req : HttpRequest w) (status : ℕ) (body : List ℕ)
      → ((forward w center config (without w header req)).1 ≡ ok (local status body)) ↔ (
          (is_connect req.method ≡ true)
          × (((req.host ≡ none)
                × (status ≡ 400)
                × (body ≡ as_bytes (codes "CONNECT must be to a socket address")))
              ⊎ (((host : Text) × (req.host ≡ some host)) × (status ≡ 200) × (body ≡ []))))
  forward-local_iff header req status body =
      let c = connect-local_iff (without w header req) status body in
      let p = plain-not-local (without w header req) status body in
      elim header [ none ↦ ground arith | some h ↦ ground arith ]

  -- The program answers by itself exactly so: 401 without a body to a client that is not let in;
  -- to CONNECT from a client that is let in, 400 where its target has no host and 200 where it has
  -- one. A request of another method that is let in has no answer of the program's own.
  pub proxy-local_iff :
      (req : HttpRequest w) (status : ℕ) (body : List ℕ)
      → ((proxy w center config req).1 ≡ ok (local status body)) ↔ IsOwnAnswer req status body
  unfolding proxy
  proxy-local_iff req status body =
      let checked = forward-local_iff (get_proxy_authorization w req).0 req status body in
      let unchecked = forward-local_iff none req status body in
      elim (Bool-cases (is_checked w center config req)) [
        | inr off ↦ rw off ground arith
        | inl on ↦
            elim (Bool-cases (
              verify_basic_authorization w (get_credentials config)
                (get_proxy_authorization w req).1)) [
                  | inl fits ↦ rw (on, fits) ground arith
                  | inr wrong ↦ rw (on, wrong) ground arith
                ]
      ]
