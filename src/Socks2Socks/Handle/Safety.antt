-- ===== src/Socks2Socks/Handle/Safety.antt =====
-- What `handle` does for a client, and when it may.
use socks_hub.Prelude.{
  ◌≡◌, refl, ◌⊎◌, inl, inr, true, false, not, List, [], ◌∷◌, Option, if◌then◌else◌, arith, All,
  Bool-cases,
}
use socks_hub.Io.{Result, ok, err}
use socks_hub.Net.{SocketAddr, Address}
use socks_hub.Credentials.{UserKey}
use socks_hub.Acl.Externals.{Externals}
use socks_hub.Acl.Center.{Center, must_proxied}
use socks_hub.Effects.{pure, act, ◌>>=◌, All-continue, All-bind}
use socks_hub.Network.{
  Network, dial_host, dial_addr, dial_timeout, socks_request, copy, connect_timeout_secs,
  create_s5_connect, first_address, create_s5_connect-eq-ok, first_address-eq-ok,
  first_address-quiet,
}
use socks_hub.Socks2Socks.Client.{
  Client, AuthOutput, no_verdict, verdict, ClientRequest, udp_associate, bind, connect, succeeded,
  command_not_supported, ClientAction, net, do_authenticate, do_wait_request, send_reply,
  do_shutdown, start_udp,
}
use socks_hub.Socks2Socks.Handle.{
  trace_peer, answer_and_copy, handle_s5_client_connection, refuse_bind, serve_request,
  check_output, handle,
}

module _ {n : Network} {x : Externals} (center : Center x) (client : Client n)
    (run_udp : Result (Unit {0})) (server : SocketAddr) (s5_auth : Option UserKey) where
  -- The target was reached over `stream`: directly, where it must not be proxied, at the first of
  -- its addresses, or through the SOCKS5 server.
  abbrev pub IsReached : Address → n.Stream → Type 0
  IsReached dst stream =
      ((must_proxied center (n.domain dst) ≡ false)
        × ((addr : SocketAddr) × (rest : List SocketAddr) × (n.to_socket_addrs dst
              ≡ ok (addr ∷ rest))
            × (n.connect_addr addr ≡ ok stream)))
      ⊎ ((must_proxied center (n.domain dst) ≡ true)
          × (n.connect_timeout server connect_timeout_secs ≡ ok stream)
          × (n.socks_connect stream dst s5_auth ≡ ok tt))

  -- What may be done for a client that asked to be connected to `dst`.
  abbrev pub IsForTarget : Address → ClientAction n → Type 0
  IsForTarget dst (net (dial_host host port)) = ⊥
  IsForTarget dst (net (dial_addr addr)) =
      (must_proxied center (n.domain dst) ≡ false)
      × ((rest : List SocketAddr) × (n.to_socket_addrs dst ≡ ok (addr ∷ rest)))
  IsForTarget dst (net (dial_timeout s secs)) =
      (must_proxied center (n.domain dst) ≡ true) × (s ≡ server) × (secs ≡ connect_timeout_secs)
  IsForTarget dst (net (socks_request stream d auth)) =
      (must_proxied center (n.domain dst) ≡ true) × (d ≡ dst) × (auth ≡ s5_auth)
  IsForTarget dst (net (copy stream conn)) = IsReached dst stream
  IsForTarget dst (send_reply succeeded a) = (stream : n.Stream) × IsReached dst stream
  IsForTarget dst _ = ⊥

  -- Tracing does nothing but perhaps fail.
  pub trace_peer-quiet : (conn : n.Stream) → (trace_peer center client conn).0 ≡ []
  unfolding trace_peer
  trace_peer-quiet conn = ground arith

  answer_and_copy-IsForTarget :
      (dst : Address) (stream : n.Stream)
      → IsReached dst stream
      → All (IsForTarget dst) (answer_and_copy center client stream).0
  unfolding answer_and_copy
  answer_and_copy-IsForTarget dst stream h = (
    (stream, h),
    All-continue (IsForTarget dst) (client.reply succeeded client.unspecified) _ (λ conn _.
        rw (trace_peer-quiet conn)
          (All-continue (IsForTarget dst) (trace_peer center client conn).1 _ (λ _ _. (h, tt)))),
  )

  create_s5_connect-IsForTarget :
      (dst : Address)
      → must_proxied center (n.domain dst) ≡ true
      → All
          (IsForTarget dst)
          (create_s5_connect {n = n} net server connect_timeout_secs dst s5_auth).0
  unfolding create_s5_connect
  create_s5_connect-IsForTarget dst proxied = ground arith

  handle_s5_client_connection-IsForTarget :
      (dst : Address)
      → All (IsForTarget dst) (handle_s5_client_connection center client dst server s5_auth).0
  unfolding handle_s5_client_connection
  handle_s5_client_connection-IsForTarget dst =
      elim (Bool-cases (must_proxied center (n.domain dst))) [
        | inr direct ↦ rw direct (
            All-bind (IsForTarget dst) (first_address net dst) _
              (rw (first_address-quiet {n = n} net dst) tt)
              (λ addr found. (
                (direct, first_address-eq-ok {n = n} net dst addr found),
                All-continue (IsForTarget dst) (n.connect_addr addr) _ (λ stream dialled.
                    let (rest, resolved) = first_address-eq-ok {n = n} net dst addr found in
                    answer_and_copy-IsForTarget dst stream
                      (inl (direct, (addr, rest, resolved, dialled)))),
              )))
        | inl proxied ↦ rw proxied (
            All-bind (IsForTarget dst)
              (create_s5_connect net server connect_timeout_secs dst s5_auth) _
              (create_s5_connect-IsForTarget dst proxied)
              (λ stream made.
                let (dialled, granted) =
                  create_s5_connect-eq-ok {n = n} net server connect_timeout_secs dst s5_auth stream
                    made in
                answer_and_copy-IsForTarget dst stream (inr (proxied, dialled, granted))))
      ]

  -- The authentication let the client in.
  abbrev pub IsAuthenticated : Type 0
  IsAuthenticated =
      (client.authenticate ≡ ok no_verdict) ⊎ (client.authenticate ≡ ok (verdict (ok true)))

  -- What may be done for a client whose request is this one.
  abbrev pub IsForRequest : ClientRequest → ClientAction n → Type 0
  IsForRequest udp_associate a = a ≡ start_udp
  IsForRequest bind a =
      (a ≡ send_reply command_not_supported client.unspecified) ⊎ (a ≡ do_shutdown)
  IsForRequest (connect dst) a = IsForTarget dst a

  -- What may be done for a client at all.
  abbrev pub IsPermitted : ClientAction n → Type 0
  IsPermitted a =
      (a ≡ do_authenticate)
      ⊎ (IsAuthenticated
          × ((a ≡ do_wait_request)
              ⊎ ((r : ClientRequest) × (client.wait_request ≡ ok r) × IsForRequest r a)))

  serve_request-IsForRequest :
      (r : ClientRequest)
      → All (IsForRequest r) (serve_request center client run_udp server s5_auth r).0
  serve_request-IsForRequest udp_associate = (refl, tt)
  serve_request-IsForRequest bind = unfold refuse_bind in ground arith
  serve_request-IsForRequest (connect dst) = handle_s5_client_connection-IsForTarget dst

  All-imp :
      (P Q : ClientAction n → Type 0)
      → ((a : ClientAction n) → P a → Q a)
      → (acts : List (ClientAction n)) → All P acts
      → All Q acts
  All-imp P Q f [] h = tt
  All-imp P Q f (a ∷ acts) h = (f a h.0, All-imp P Q f acts h.1)

  request-IsPermitted :
      IsAuthenticated
      → All IsPermitted
          (act do_wait_request client.wait_request >>= λ request.
            serve_request center client run_udp server s5_auth request).0
  request-IsPermitted authentic = (
    inr (authentic, inl refl),
    All-continue IsPermitted client.wait_request _ (λ r asked.
        All-imp (IsForRequest r) IsPermitted (λ a h. inr (authentic, inr (r, asked, h))) _
          (serve_request-IsForRequest r)),
  )

  -- Nothing but the authentication itself is done for a client that it did not let in; for the
  -- others, only what their request asks for: a UDP association, the refusal of BIND, or, for
  -- CONNECT, the connection to the target by the way that the access control list prescribes, with
  -- success reported and bytes copied only over a connection that has been made.
  pub handle-IsPermitted : All IsPermitted (handle center client run_udp server s5_auth).0
  unfolding handle
  handle-IsPermitted = go client.authenticate refl
    where
      go :
          (r : Result AuthOutput)
          → client.authenticate ≡ r
          → All IsPermitted
              (act do_authenticate r >>= λ res. check_output center client res >>= λ passed.
                if not passed
                then pure tt
                else (act do_wait_request client.wait_request >>= λ request.
                    serve_request center client run_udp server s5_auth request)).0
      go (err e) h = (inl refl, tt)
      go (ok no_verdict) h = (inl refl, request-IsPermitted (inl h))
      go (ok (verdict (err e))) h = (inl refl, tt)
      go (ok (verdict (ok false))) h = (inl refl, tt)
      go (ok (verdict (ok true))) h = (inl refl, request-IsPermitted (inr h))
