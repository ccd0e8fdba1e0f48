-- ===== src/Examples/Start.antt =====
-- The start of the daemon, and a round with its guards, on concrete inputs.
use roki_mb_daemon.Base.{ℕ, ◌≡◌, ◌<◌, refl, true, false, [], str, arith}
use roki_mb_daemon.Rpc.Send.{packed}
use roki_mb_daemon.Firmware.{running}
use roki_mb_daemon.Server.{again, serve_round}
use roki_mb_daemon.Server.Guards.{guarded_round, guarded_round-serve_round}
use roki_mb_daemon.Server.Signals.{
  sigterm, sigint, sigemptyset, sigfillset, sig_block, sig_unblock, pthread_sigmask, start_thread,
  set_handler, cleanup_runs, pausing, Boot, ending_signals, block, start_dispatch, start_cleanup,
  handle_term, handle_int, unblock, Reach, here, next, fresh,
}
use roki_mb_daemon.Server.Signals.Safety.{signals_safe}
use roki_mb_daemon.Examples.{handler, server, session}

guarded_round-serve_round_example :
    let g = guarded_round server (record {
      session = session (handler running true (str "bob")) (packed 1 []);
      conn_ok = true;
    }) in
    ((g.0, g.1.session)
      ≡ serve_round server (session (handler running true (str "bob")) (packed 1 [])))
    × (g.0 ≡ again → g.1.conn_ok ≡ true)
guarded_round-serve_round_example =
    guarded_round-serve_round server (session (handler running true (str "bob")) (packed 1 []))

abbrev main_thread : ℕ
main_thread = 0

abbrev boot : Boot
boot = fresh sigemptyset

abbrev started : Boot
started = record {
  stage = cleanup_runs;
  process = start_thread 0 (start_thread 0 (pthread_sigmask sig_block sigfillset 0 boot.process));
}

abbrev paused : Boot
paused = record {
  stage = pausing;
  process =
      pthread_sigmask sig_unblock ending_signals 0
        (set_handler sigint (set_handler sigterm started.process));
}

reached : Reach boot paused
reached =
    next
      (next
        (next
          (next (next (next here (block refl refl)) (start_dispatch refl refl))
            (start_cleanup refl refl))
          (handle_term refl refl))
        (handle_int refl refl))
      (unblock refl refl)

open_term : paused.masks 0 sigterm ≡ false
unfolding pthread_sigmask set_handler start_thread
open_term = refl

three : 0 < paused.threads
unfolding pthread_sigmask set_handler start_thread
three = omega arith

signals_safe_example :
    (main_thread ≡ 0)
    × (paused.stage ≡ pausing)
    × (ending_signals sigterm ≡ true)
    × (paused.handled sigterm ≡ true)
signals_safe_example = signals_safe sigemptyset paused 0 sigterm reached (λ e. cc) three open_term
