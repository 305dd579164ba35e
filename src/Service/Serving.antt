-- ===== src/Service/Serving.antt =====
-- Which tasks a server starts: `main_entry` of src/lib.rs with the accept loops behind it, the
-- other way round from Runs.
use socks_hub.Prelude.{
  ◌≡◌, refl, ap, ◌∙◌, List, [], ◌∷◌, ◌++◌, map, flat_map, if◌then◌else◌, arith, Bool-cases, inl,
  inr,
}
use mathlib.Core.List.{append_assoc}
use socks_hub.Io.{ok, err}
use socks_hub.Net.{SocketAddr}
use socks_hub.Credentials.{user_key}
use socks_hub.Config.{Config, ProxyType, http, socks5, get_s5_credentials}
use socks_hub.Acl.Externals.{Externals}
use socks_hub.Acl.Center.{init_center}
use socks_hub.Listener.{Event, quit, accept, Status, accept_loop}
use socks_hub.Socks2Socks.Server.{choose_auth}
use socks_hub.Service.{
  Host, Happening, announce, http_service, socks5_service, Centers, listen, main_entry,
  http_main_entry, socks5_main_entry, starts_http, starts_socks5,
}
use socks_hub.Service.Tasks.{
  Deed, announced, Clients, build_http_service, serve_socks5, carry_out, run_server,
}

-- The server has nothing more to accept: it is told to stop, or accepting fails, or it waits.
abbrev pub IsLast : {Conn : Type 0} → List (Event Conn) → Type 0
IsLast [] = Unit
IsLast (quit ∷ events) = Unit
IsLast (accept (err e) ∷ events) = Unit
IsLast (accept (ok conn) ∷ events) = ⊥

flat_map-map {ℓ κ μ} :
    {A : Type ℓ} {B : Type κ} {C : Type μ} (f : B → List C) (g : A → B) (xs : List A)
    → flat_map f (map g xs) ≡ flat_map (λ x. f (g x)) xs
flat_map-map f g [] = refl
flat_map-map f g (x ∷ xs) = ap (λ ys. f (g x) ++ ys) (flat_map-map f g xs)

flat_map-append {ℓ κ} :
    {A : Type ℓ} {B : Type κ} (f : A → List B) (xs ys : List A)
    → flat_map f (xs ++ ys) ≡ (flat_map f xs ++ flat_map f ys)
flat_map-append f [] ys = refl
flat_map-append f (x ∷ xs) ys = simp (flat_map-append f xs ys, append_assoc)

module _ {Conn : Type 0} where
  accept_loop-IsLast :
      (conns : List Conn) (rest : List (Event Conn))
      → IsLast rest
      → (accept_loop (map (λ c. accept (ok c)) conns ++ rest)).0 ≡ conns
  unfolding accept_loop
  accept_loop-IsLast [] [] h = refl
  accept_loop-IsLast [] (quit ∷ rest) h = refl
  accept_loop-IsLast [] (accept (err e) ∷ rest) h = refl
  accept_loop-IsLast [] (accept (ok c) ∷ rest) h = absurd h
  accept_loop-IsLast (c ∷ conns) rest h = ap (λ cs. c ∷ cs) (accept_loop-IsLast conns rest h)

  listen-served :
      (host : Host Conn) (addr local : SocketAddr) (task : Conn → Happening Conn)
      → host.bind addr ≡ ok (ok local)
      → (listen host addr task).0 ≡ (
          (if host.announces then announce local ∷ [] else [])
          ++ map task (accept_loop host.events).0)
  unfolding listen
  listen-served host addr local task bound = ground arith

  listen-flat_map {κ} :
      {A : Type κ} (host : Host Conn) (addr local : SocketAddr) (conns : List Conn)
      (rest : List (Event Conn)) (task : Conn → Happening Conn) (f : Happening Conn → List A)
      → host.bind addr ≡ ok (ok local)
      → host.events ≡ map (λ c. accept (ok c)) conns ++ rest
      → IsLast rest
      → flat_map f (listen host addr task).0 ≡ (
          flat_map f (if host.announces then announce local ∷ [] else [])
          ++ flat_map (λ conn. f (task conn)) conns)
  listen-flat_map host addr local conns rest task f bound arrived last =
      let served : (accept_loop host.events).0 ≡ conns =
        ap (λ es. (accept_loop es).0) arrived ∙ accept_loop-IsLast conns rest last in
      simp (listen-served host addr local task bound, served, flat_map-append, flat_map-map)

module _ {Conn : Type 0} (clients : Clients Conn) (x : Externals) (host : Host Conn)
    (config : Config) (centers : Centers x) where
  -- The tasks for a connection, by the kind of server, with the list that it has then.
  abbrev pub served : ProxyType → Conn → List (List (Deed clients))
  served kind conn = elim kind [
    | http ↦
        build_http_service clients (init_center x host.open_file config centers.http_center) config
          conn
    | socks5 ↦
        serve_socks5 clients (init_center x host.open_file config centers.socks5_center) conn
          (choose_auth config) config.server_addr (user_key (get_s5_credentials config))
        ∷ []
  ]

  announcing :
      (centers' : Centers x) (local : SocketAddr)
      → flat_map (carry_out clients centers') (if host.announces then announce local ∷ [] else [])
        ≡ (if host.announces then (announced local ∷ []) ∷ [] else [])
  announcing centers' local = elim (Bool-cases host.announces) [
    | inl asked ↦ rw asked refl
    | inr unasked ↦ rw unasked refl
  ]

  -- A server whose listener is bound serves every connection that it accepts. Let connections
  -- arrive first, and then, if anything, the signal to stop or an error of accepting: the tasks of
  -- the run are the announcement of the address, for a host that asks for it, and then, connection
  -- by connection and in this order, those that the kind of server has for it, with the list that
  -- it has then, the configured credentials and the configured SOCKS5 server. There are no others,
  -- and what arrives behind the signal or the error is not served.
  pub run_server-served :
      (conns : List Conn) (rest : List (Event Conn)) (local : SocketAddr)
      → host.bind config.listen_addr ≡ ok (ok local)
      → host.events ≡ map (λ c. accept (ok c)) conns ++ rest
      → IsLast rest
      → run_server clients host config centers ≡ (
          (if host.announces then (announced local ∷ []) ∷ [] else [])
          ++ flat_map (served config.source_type) conns)
  unfolding run_server http_main_entry socks5_main_entry
  run_server-served conns rest local bound arrived last = go config.source_type refl
    where
      tasks : Centers x × (List (Happening Conn) × Status) → List (List (Deed clients))
      tasks (centers', (happenings, status)) = flat_map (carry_out clients centers') happenings

      go :
          (t : ProxyType)
          → config.source_type ≡ t
          → flat_map
              (carry_out clients (main_entry host x config centers).0)
              (main_entry host x config centers).1.0
            ≡ ((if host.announces then (announced local ∷ []) ∷ [] else [])
                ++ flat_map (served t) conns)
      go http e =
          ap tasks (starts_http host x config centers e)
          ∙ listen-flat_map host config.listen_addr local conns rest
              (λ conn. http_service conn config)
              (carry_out clients (http_main_entry host x config centers).0) bound arrived last
          ∙ ap (λ ts. ts ++ flat_map (served http) conns)
              (announcing (http_main_entry host x config centers).0 local)
      go socks5 e =
          ap tasks (starts_socks5 host x config centers e)
          ∙ listen-flat_map host config.listen_addr local conns rest
              (λ conn.
                socks5_service conn (choose_auth config) config.server_addr
                  (user_key (get_s5_credentials config)))
              (carry_out clients (socks5_main_entry host x config centers).0) bound arrived last
          ∙ ap (λ ts. ts ++ flat_map (served socks5) conns)
              (announcing (socks5_main_entry host x config centers).0 local)
