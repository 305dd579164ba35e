-- ===== src/Api/Running.antt =====
-- `api_internal_run` of src/api.rs as a whole: the start, the server, and what follows its end.
use socks_hub.Prelude.{
  ◌≡◌, refl, ◌↔◌, ap, Bool, true, false, not, ◌||◌, List, [], ◌∷◌, ◌++◌, map, Option, none, some,
  arith,
}
use socks_hub.Io.{ok, err}
use socks_hub.Credentials.{user_key}
use socks_hub.Config.{Config, get_s5_credentials}
use socks_hub.Socks2Socks.Server.{choose_auth}
use socks_hub.Acl.Externals.{Externals}
use socks_hub.Listener.{Event, quit, accept, listening, returned, accept_loop}
use socks_hub.Service.{
  Host, Happening, http_service, socks5_service, Centers, listen, main_entry, http_main_entry,
  socks5_main_entry,
}
use socks_hub.Api.{Code, success, State, start_run, end_run}

module _ {Conn : Type 0} (runtime printed : Bool) (host : Host Conn) (x : Externals)
    (config : Config) where
  -- The code, or `none` while the server runs, what is left of the two statics, and what has
  -- happened.
  unfoldable pub api_internal_run :
      State × Centers x → Option Code × ((State × Centers x) × List (Happening Conn))
  unfolding start_run end_run main_entry
  api_internal_run (s, centers) =
      let (refused, started) = start_run runtime printed s in
      elim refused [
        | some code ↦ (some code, ((started, centers), []))
        | none ↦
            let (centers', (happenings, status)) = main_entry host x config centers in
            elim status [
              | listening ↦ (none, ((started, centers'), happenings))
              | returned result ↦
                  let (code, ended) = end_run s.fresh result started in
                  (some code, ((ended, centers'), happenings))
            ]
      ]

-- The events up to a quit signal, all others before it accepted connections.
abbrev pub IsQuit : {Conn : Type 0} → List (Event Conn) → Type 0
IsQuit {Conn} events =
    (conns : List Conn) × (rest : List (Event Conn)) × (events
      ≡ map (λ c. accept (ok c)) conns ++ quit ∷ rest)

module _ {Conn : Type 0} where
  quits-IsQuit :
      (events : List (Event Conn)) → (accept_loop events).1 ≡ returned (ok tt) → IsQuit events
  unfolding accept_loop
  quits-IsQuit [] h = ground arith
  quits-IsQuit (quit ∷ events) h = ([], events, refl)
  quits-IsQuit (accept (err e) ∷ events) h = ground arith
  quits-IsQuit (accept (ok c) ∷ events) h =
      let (conns, rest, same) = quits-IsQuit events h in
      (c ∷ conns, rest, ap (λ es. accept (ok c) ∷ es) same)

  IsQuit-quits :
      (conns : List Conn) (rest : List (Event Conn))
      → (accept_loop (map (λ c. accept (ok c)) conns ++ quit ∷ rest)).1 ≡ returned (ok tt)
  unfolding accept_loop
  IsQuit-quits [] rest = refl
  IsQuit-quits (c ∷ conns) rest = IsQuit-quits conns rest

module _ {Conn : Type 0} (host : Host Conn) (x : Externals) (config : Config) where
  -- The listener is bound, and its address is known where it is asked for.
  abbrev pub is_bound : Bool
  is_bound = elim (host.bind config.listen_addr) [
    | err e ↦ false
    | ok (ok local) ↦ true
    | ok (err e) ↦ not (host.announces || host.logging)
  ]

  listen-status_iff :
      (task : Conn → Happening Conn)
      → ((listen host config.listen_addr task).1 ≡ returned (ok tt))
        ↔ ((is_bound ≡ true) × ((accept_loop host.events).1 ≡ returned (ok tt)))
  unfolding listen
  listen-status_iff task = ground arith

  main_entry-status_iff :
      (centers : Centers x)
      → ((main_entry host x config centers).1.1 ≡ returned (ok tt))
        ↔ ((is_bound ≡ true) × ((accept_loop host.events).1 ≡ returned (ok tt)))
  unfolding main_entry http_main_entry socks5_main_entry
  main_entry-status_iff centers =
      let web = listen-status_iff (λ conn. http_service conn config) in
      let socks = listen-status_iff (λ conn.
        socks5_service conn (choose_auth config) config.server_addr
          (user_key (get_s5_credentials config))) in
      ground arith

module _ {Conn : Type 0} (runtime printed : Bool) (host : Host Conn) (x : Externals)
    (config : Config) where
  code_iff :
      (s : State) (centers : Centers x)
      → ((api_internal_run runtime printed host x config (s, centers)).0 ≡ some success) ↔ (
          (s.tun_quit ≡ none)
          × (runtime ≡ true)
          × (printed ≡ true)
          × ((main_entry host x config centers).1.1 ≡ returned (ok tt)))
  unfolding api_internal_run start_run end_run
  code_iff s centers = ground arith

  -- Running the server gives the code 0 exactly so: `TUN_QUIT` holds no sender when it is called,
  -- whatever has been started and stopped before, the runtime is built and the configuration
  -- printed, the listener is bound, with an address where that is asked for, and every event up to
  -- a quit signal is a connection that is accepted.
  pub api_internal_run-success_iff :
      (s : State) (centers : Centers x)
      → ((api_internal_run runtime printed host x config (s, centers)).0 ≡ some success) ↔ (
          (s.tun_quit ≡ none)
          × (runtime ≡ true)
          × (printed ≡ true)
          × (is_bound host x config ≡ true)
          × IsQuit host.events)
  api_internal_run-success_iff s centers = (there, back)
    where
      there :
          (api_internal_run runtime printed host x config (s, centers)).0 ≡ some success
          → (s.tun_quit ≡ none)
            × (runtime ≡ true)
            × (printed ≡ true)
            × (is_bound host x config ≡ true)
            × IsQuit host.events
      there e =
          let (idle, built, shown, ended) = (code_iff s centers).0 e in
          let (bound, accepted) = (main_entry-status_iff host x config centers).0 ended in
          (idle, built, shown, bound, quits-IsQuit host.events accepted)

      back :
          ((s.tun_quit ≡ none)
            × (runtime ≡ true)
            × (printed ≡ true)
            × (is_bound host x config ≡ true)
            × IsQuit host.events)
          → (api_internal_run runtime printed host x config (s, centers)).0 ≡ some success
      back (idle, built, shown, bound, (conns, rest, same)) =
          let accepted : (accept_loop host.events).1 ≡ returned (ok tt) =
            rw same (IsQuit-quits conns rest) in
          (code_iff s centers).1
            (idle, built, shown, (main_entry-status_iff host x config centers).1 (bound, accepted))
