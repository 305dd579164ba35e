-- ===== src/Tests/Threads.antt =====
-- Threads of a host program that start and stop the server at once.
use socks_hub.Prelude.{ℕ, ◌≡◌, refl, ◌⊎◌, true, false, [], arith, none, some, ◌||◌}
use native.Mathlib.Decide.{ℕ_discrete}
use socks_hub.Io.{ok}
use socks_hub.Api.{
  Channel, ChannelLaws, success, minus, State, start_run, end_run, stop, end_run-blocks,
}
use socks_hub.Api.Threads.Lost.{WasLost, quits-WasLost}
use socks_hub.Api.Threads.{
  tell, send, has, admitted, serving, stopping, finished, admit, start, take, System, by, Steps,
  stay, later, init, update, is_quitting, publish, take_sender,
}
use socks_hub.Api.Threads.Safety.{one_server_stays, told_once}
use socks_hub.Api.Threads.Liveness.{server-can_stop, start-displaces}

abbrev channel : Channel
channel = record { recv = λ sent dropped. sent || dropped; send = λ alive. alive }

channel_laws : ChannelLaws channel
channel_laws = record {
  recv-sent = λ dropped. refl;
  recv-dropped = refl;
  recv-waiting = refl;
  send-alive = refl;
  send-closed = refl;
}

abbrev unstarted : State
unstarted = record { tun_quit = none; fresh = 4; alive = [] }

end_run-blocks_example :
    ((start_run true true (end_run 4 (ok tt) (start_run true true unstarted).1).1).0
      ≡ some (minus 1))
    × ((stop channel true (end_run 4 (ok tt) (start_run true true unstarted).1).1).0 ≡ minus 3)
    × ((start_run true true
          (stop channel true (end_run 4 (ok tt) (start_run true true unstarted).1).1).1).0
        ≡ none)
end_run-blocks_example = end_run-blocks unstarted (ok tt) channel_laws refl

-- Threads 0 and 1 have passed the test of `TUN_QUIT`, and thread 0 has started its server.
abbrev raced : System
raced = record {
  shared = publish init.shared;
  calls = update (update (update init.calls 0 admitted) 1 admitted) 0 (serving 0);
}

raced-Steps : Steps channel init raced
unfolding ℕ_discrete
raced-Steps = later (later (later stay (by 0 (admit refl))) (by 1 (admit refl))) (by 0 start)

-- Thread 2 has then taken the sender, and thread 1 has started its server.
abbrev replaced : System
replaced = record {
  shared = publish (take_sender raced.shared);
  calls = update (update raced.calls 2 (stopping 0)) 1 (serving 1);
}

replaced-Steps : Steps channel init replaced
unfolding ℕ_discrete
replaced-Steps = later (later raced-Steps (by 2 (take refl))) (by 1 start)

one_server_stays_example :
    (k : ℕ) × ((replaced.calls k ≡ stopping 0) ⊎ (replaced.calls k ≡ stopping 1))
unfolding ℕ_discrete
one_server_stays_example =
    one_server_stays {i = 0} {j = 1} channel_laws replaced-Steps refl refl (omega arith) refl refl

told_once_example :
    (is_quitting replaced.shared 0 ≡ false)
    × ((i : ℕ) × ((replaced.calls i ≡ serving 0)
          × ((j : ℕ) → replaced.calls j ≡ serving 0 → j ≡ i)))
unfolding ℕ_discrete
told_once_example = told_once {k = 2} channel_laws replaced-Steps refl refl

server-can_stop_example : (t : System) × (Steps channel replaced t × (t.calls 1 ≡ finished success))
unfolding ℕ_discrete
server-can_stop_example =
    server-can_stop channel_laws {i = 1} {k = 3} {id = 1} replaced-Steps refl refl

start-displaces_example :
    (t : System) × (Steps channel raced t
      × ((t.calls 0 ≡ finished success) × ((t.calls 1 ≡ serving 1) × (t.shared.sent ≡ []))))
unfolding ℕ_discrete
start-displaces_example =
    start-displaces channel_laws {s = raced} {i = 1} {j = 0} {id = 0} refl refl refl

-- Thread 0 runs its server, and thread 1 has stopped it.
abbrev stopped : System
stopped = record {
  shared = send 0 (take_sender (publish init.shared));
  calls =
      update (update (update (update init.calls 0 admitted) 0 (serving 0)) 1 (stopping 0)) 1
        (finished success);
}

stopped-Steps : Steps channel init stopped
unfolding ℕ_discrete
stopped-Steps =
    later (later (later (later stay (by 0 (admit refl))) (by 0 start)) (by 1 (take refl)))
      (by 1 (tell refl))

-- Threads 0 and 1 have started their servers, thread 1 over thread 0; nobody stops either.
abbrev displaced : System
displaced = record { shared = publish raced.shared; calls = update raced.calls 1 (serving 1) }

displaced-Steps : Steps channel init displaced
unfolding ℕ_discrete
displaced-Steps = later raced-Steps (by 1 start)

quits-WasLost_example : (has displaced.shared.sent 0 ≡ true) ⊎ WasLost 0 displaced-Steps
unfolding ℕ_discrete
quits-WasLost_example = quits-WasLost {i = 0} channel_laws displaced-Steps refl refl
