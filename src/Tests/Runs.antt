-- ===== src/Tests/Runs.antt =====
-- Whole runs of servers with an ACL file.
use socks_hub.Prelude.{ℕ, ◌≡◌, refl, [], ◌∷◌, some, All, length, map, List, ◌++◌, flat_map}
use socks_hub.Listener.{quit, accept, accept_loop}
use socks_hub.Acl.Center.{init_center, load_acl}
use socks_hub.Acl.AccessControl.{load_from_file}
use socks_hub.Http2Socks.Proxy.{tunnel}
use socks_hub.Io.{ok}
use socks_hub.Config.{http, socks5, Config}
use socks_hub.Http2Socks.World.{HttpRequest, connect}
use socks_hub.Service.{Host, main_entry, http_main_entry, socks5_main_entry, listen}
use socks_hub.Service.Schedules.{Schedule, stops, runs, now, past}
use socks_hub.Service.Tasks.{
  Deed, announced, Exchange, Clients, run_server, build_http_service, serve_http, upgraded_task,
  serve_socks5,
}
use socks_hub.Service.Lawful.{IsLawful}
use socks_hub.Service.Runs.{unset, run_server-IsLawful}
use socks_hub.Service.Serving.{served, run_server-served}
use socks_hub.Socks2Socks.Client.{udp_associate}
use socks_hub.Socks2Socks.Handle.{handle}
use socks_hub.Socks2Socks.Server.{choose_auth}
use socks_hub.Socks2Socks.Udp.{relay, round}
use socks_hub.Socks2Socks.Udp.Datagrams.{receive}
use socks_hub.Socks2Socks.Udp.Association.{handle_s5_upd_associate, serve_association}
use socks_hub.Tests.Plain.{plain}
use socks_hub.Tests.Access.{run_acl, files, path, lines}
use socks_hub.Tests.Toy.{server, toy_world, guarded}
use socks_hub.Tests.Http.{run_proxy, request}
use socks_hub.Tests.Socks.{client}
use socks_hub.Tests.Association.{associate}
use socks_hub.Tests.Services.{host}

abbrev listing : Config
listing = record guarded { acl_file = some path }

abbrev opening : Host ℕ
opening = record host { open_file = files }

abbrev exchange : HttpRequest toy_world → Exchange
exchange req = record {
  world = toy_world;
  request = req;
  tunnel_world = toy_world;
  upgrade = λ r. ok 9;
}

-- Each connection sends a request, and then a CONNECT.
abbrev clients : Clients ℕ
clients = record {
  exchanges = λ conn. exchange request ∷ exchange (record request { method = connect }) ∷ [];
  network = λ conn. toy_world.network;
  client = λ conn auth. client;
  associate = λ conn. associate;
}

abbrev short : Host ℕ
short = record opening { events = accept (ok 1) ∷ quit ∷ [] }

-- The tasks: the announcement; a request's, with four actions, of which none starts a tunnel; and a
-- CONNECT's, with one action, which starts a tunnel with three.
deeds :
    map length (run_server clients short listing (unset clients plain short listing lines))
    ≡ 1 ∷ 4 ∷ 0 ∷ 0 ∷ 0 ∷ 0 ∷ 1 ∷ 3 ∷ []
unfolding run_server run_acl run_proxy build_http_service serve_http upgraded_task main_entry
    http_main_entry listen accept_loop init_center load_acl tunnel load_from_file
deeds = refl

-- SOCKS5 clients that ask for UDP.
abbrev udp_clients : Clients ℕ
udp_clients = record clients {
  client = λ conn auth. record client { wait_request = ok udp_associate };
}

-- The announcement, and the client's task: three actions, and the seven steps of its association.
associations :
    map length (
      run_server udp_clients short
        (record listing { source_type = socks5 })
        (unset udp_clients plain short listing lines))
    ≡ 1 ∷ 10 ∷ []
unfolding run_server run_acl main_entry socks5_main_entry serve_socks5 handle
    handle_s5_upd_associate serve_association relay round receive choose_auth listen accept_loop
associations = refl

-- A server that serves the CONNECT while the request has been begun.
abbrev tasks : List (List (Deed clients))
tasks = run_server clients short listing (unset clients plain short listing lines)

abbrev begun : (deeds : List (Deed clients)) × (Schedule tasks deeds × (length deeds ≡ 4))
unfolding run_server run_acl run_proxy build_http_service serve_http upgraded_task main_entry
    http_main_entry listen accept_loop init_center load_acl tunnel load_from_file
begun = (
  _,
  (
    runs now (
        runs (past now)
          (runs (past (past (past (past (past (past now)))))) (runs (past now) stops))),
    refl,
  ),
)

run_server-IsLawful_example : All (IsLawful clients plain short listing lines) begun.0
run_server-IsLawful_example =
    run_server-IsLawful clients plain short listing lines path begun.0 refl refl begun.1.0

run_server-served_example :
    run_server clients short listing (unset clients plain short listing lines)
    ≡ (announced server ∷ []) ∷ []
      ++ flat_map
          (served clients plain short listing (unset clients plain short listing lines) http)
          (1 ∷ [])
run_server-served_example =
    run_server-served clients plain short listing (unset clients plain short listing lines) (1 ∷ [])
      (quit ∷ []) server refl refl tt
