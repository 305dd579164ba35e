-- ===== src/Tests/Services.antt =====
-- A server that is started, accepts two connections and is told to stop.
use socks_hub.Prelude.{ℕ, ◌≡◌, refl, true, false, [], ◌∷◌, none, some, ◌↔◌}
use socks_hub.Api.{State, success, start_run, end_run}
use socks_hub.Api.Running.{api_internal_run, is_bound, IsQuit, api_internal_run-success_iff}
use socks_hub.Io.{ok}
use socks_hub.Config.{default}
use socks_hub.Listener.{quit, accept, accept_loop, returned}
use socks_hub.Service.{Host, Centers, announce, http_service, main_entry, http_main_entry, listen}
use socks_hub.Tests.Plain.{plain}
use socks_hub.Tests.Toy.{server}

abbrev pub host : Host ℕ
host = record {
  bind = λ addr. ok (ok server);
  announces = true;
  logging = false;
  open_file = λ path. ok [];
  events = accept (ok 1) ∷ accept (ok 2) ∷ quit ∷ accept (ok 3) ∷ [];
}

abbrev unset : Centers plain
unset = record { http_center = none; socks5_center = none }

served :
    (main_entry host plain default unset).1
    ≡ (announce server ∷ http_service 1 default ∷ http_service 2 default ∷ [], returned (ok tt))
unfolding main_entry http_main_entry listen accept_loop
served = refl

abbrev stopped : State
stopped = record { tun_quit = none; fresh = 4; alive = [] }

ran : (api_internal_run true true host plain default (stopped, unset)).0 ≡ some success
unfolding api_internal_run start_run end_run main_entry http_main_entry listen accept_loop
ran = refl

api_internal_run-success_iff_example :
    ((api_internal_run true true host plain default (stopped, unset)).0 ≡ some success) ↔ (
      (stopped.tun_quit ≡ none)
      × (true ≡ true)
      × (true ≡ true)
      × (is_bound host plain default ≡ true)
      × IsQuit host.events)
api_internal_run-success_iff_example =
    api_internal_run-success_iff true true host plain default stopped unset
