-- ===== src/Examples/Port.antt =====
-- Requests for the port, one at a time and interleaved, on concrete states.
use roki_mb_daemon.Base.{ℕ, ◌≡◌, refl, true, false, List, [], ◌∷◌, some, none, ok, str, arith}
use roki_mb_daemon.Memory.{load}
use roki_mb_daemon.Firmware.{boot, running, transition, check_state, check_from}
use roki_mb_daemon.Firmware.Transitions.{Call}
use roki_mb_daemon.RpcDefs.{UserData, to_cxx_str}
use roki_mb_daemon.Handler.{
  Handler, Request, asks_connect, asks_disconnect, asks_reset, handle, clear_port,
}
use roki_mb_daemon.Handler.Arbitration.{IsArbitrated, handle-IsArbitrated}
use roki_mb_daemon.Handler.Grants.{serve}
use roki_mb_daemon.Handler.Threads.{
  idle, cleared, acting, connecting, Shared, move, initial, routine, clear_reset, check_connect,
  begin, call_start, succeed, Reach, here, next,
}
use roki_mb_daemon.Handler.Threads.Exclusion.{one_script, one_grant}
use roki_mb_daemon.Handler.Refinement.{LockRun, view, events, serve_refines}
use roki_mb_daemon.Handler.Threads.Race.{reset_under_connect}
use roki_mb_daemon.Examples.{os, dir, setup, device, handler}

abbrev ann : UserData
ann = record { name = record { bytes = some (str "ann"); size = 3 }; pid = 42 }

abbrev visit : List Request
visit = asks_connect ann ∷ asks_reset ∷ asks_connect ann ∷ asks_disconnect ∷ asks_connect ann ∷ []

abbrev free : Handler ℕ
free = handler running false (str "bob")

abbrev held : Handler ℕ
held = handler running true (str "bob")

held-IsArbitrated : IsArbitrated setup held
held-IsArbitrated = record { settled = ((λ e. cc), refl); held_running = λ e. refl }

handle-IsArbitrated_example : IsArbitrated setup (handle setup asks_disconnect held).1
handle-IsArbitrated_example = handle-IsArbitrated setup asks_disconnect held held-IsArbitrated

ann_name : to_cxx_str true ann.name ≡ ok (str "ann")
unfolding to_cxx_str load str
ann_name = refl

port_cleared : (clear_port device 4 free.mb_port 0).0 ≡ ok tt
unfolding clear_port
port_cleared = refl

-- Thread 3 runs a reset script.
abbrev resetting : Shared
resetting = record {
  state = transition;
  acquired = false;
  owner = none;
  places = move (move (λ i. idle) 3 (cleared Call.reset)) 3 (acting Call.reset);
}

resetting-Reach : Reach os dir initial resetting
unfolding move routine check_state check_from
resetting-Reach =
    next 3 (next 3 here (clear_reset refl refl refl refl)) (begin Call.reset refl refl refl)

resetting-acting : resetting.places 3 ≡ acting Call.reset
unfolding move
resetting-acting = refl

one_script_example : (◌≡◌ {A = ℕ} 3 3) × (resetting.state ≡ transition)
one_script_example =
    one_script os dir resetting 3 3 resetting-Reach (rw resetting-acting refl)
      (rw resetting-acting refl)

-- The chip has been started by thread 1, and thread 2 is about to take the port.
abbrev taking : Shared
taking = record {
  state = running;
  acquired = false;
  owner = some 2;
  places =
      move (move (move (move (λ i. idle) 1 (cleared Call.start)) 1 (acting Call.start)) 1 idle) 2
        connecting;
}

taking-Reach : Reach os dir initial taking
unfolding move routine check_state check_from
taking-Reach =
    next 2
      (next 1 (next 1 (next 1 here (call_start refl refl)) (begin Call.start refl refl refl))
        (succeed Call.start refl refl))
      (check_connect refl refl refl refl refl)

taking-connecting : taking.places 2 ≡ connecting
unfolding move
taking-connecting = refl

one_grant_example : (◌≡◌ {A = ℕ} 2 2) × (taking.acquired ≡ false)
one_grant_example =
    one_grant os dir taking 2 2 taking-Reach (rw taking-connecting refl) (rw taking-connecting refl)

abbrev started : Shared
started = record { state = running; acquired = false; owner = none; places = λ i. idle }

reset_under_connect_example :
    (t : Shared) × Reach os dir started t × (t.acquired ≡ true) × (t.state ≡ boot)
reset_under_connect_example =
    reset_under_connect os dir started 1 2 (λ e. absurd (omega arith)) refl refl refl refl refl

serve_refines_example :
    LockRun (view free) (events setup visit free) (view (serve setup visit free))
serve_refines_example = serve_refines setup visit free
