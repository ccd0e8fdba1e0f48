-- ===== src/Examples/Daemon.antt =====
-- The launch of the daemon where it fails, on concrete inputs.
use roki_mb_daemon.Base.{
  ℕ, ◌≡◌, refl, inr, true, false, List, [], ◌∷◌, ◌++◌, none, some, ok, throw, runtime_error, str,
  arith,
}
use roki_mb_daemon.Streams.{received}
use roki_mb_daemon.HwUtils.{exited}
use roki_mb_daemon.Sockets.{
  server_socket, ip_to_string, address, unwind, destroy, move_assign, htons,
}
use roki_mb_daemon.Sockets.Descriptors.{release}
use roki_mb_daemon.DaemonTools.{is_running}
use roki_mb_daemon.DaemonTools.Handshake.{report}
use roki_mb_daemon.DaemonTools.Session.{Params, get_params, get_env, Machine, daemon_is_running}
use roki_mb_daemon.DaemonTools.Launch.{Launcher, launch}
use roki_mb_daemon.DaemonTools.Launch.Reports.{launch_throws_twice}
use roki_mb_daemon.Cli.Commands.{Terminal}
use roki_mb_daemon.Cli.Output.{make_error_message}
use roki_mb_daemon.Cli.Program.{Program, do_command, execute_tokens}
use roki_mb_daemon.Cli.{chip_status}
use roki_mb_daemon.Cli.Program.Balance.{Balanced, command-Balanced}
use roki_mb_daemon.Cli.Start.{start_reports}
use roki_mb_daemon.Examples.Sockets.{World, kernel-Accounts, named}
use roki_mb_daemon.Examples.Links.{
  machine, environment, stream, stream-Healthy, recv_byte-bounded, recv_byte-kept, set as set_8081,
}

abbrev free_machine : Machine World
free_machine = record machine { env = record environment { stoul = λ text. ok 8082 } }

abbrev message : List ℕ
message = 110 ∷ 111 ∷ []

abbrev reported : World
reported = record { fds = 2 ∷ 1 ∷ []; inbox = report message ++ []; outbox = [] }

-- `fork` gives `child` to the caller; the log file cannot be opened.
abbrev launcher : ℕ → Launcher World
launcher child = record {
  machine = free_machine;
  pipe = λ w. (inr (7, 8), w);
  fork = λ w. (inr child, w);
  stream = λ fd. stream;
  open_log = λ path w. (some 13, w);
  daemonize = λ w. (none, w);
  strerror = λ e. [];
  char_signed = true;
  before = 0;
  read_end = λ fd k w. (received [], w);
  open_pipe = λ w. (inr (4, 5), w);
  os = record {
    fork = λ w. (none, w);
    dup2 = λ fd w. (none, w);
    wait = λ w. (none, w);
    sh = λ cmd w. (some (exited 0), w);
    close = λ fd w. w;
  };
  scripts_dir = [];
  run = λ s w. (ok tt, w);
  fuel = 300;
}

abbrev params : Params
params = record {
  port = 8082;
  backlog = 8082;
  log_path = str "LOG";
  conn_attempt_count = 8082;
  conn_attempt_period = 8082;
}

set : get_params free_machine.env ≡ ok params
unfolding get_params get_env
set = refl

idle : daemon_is_running free_machine reported ≡ (ok false, reported)
unfolding daemon_is_running get_params get_env server_socket ip_to_string address unwind destroy
    move_assign htons release is_running
idle = refl

launch_throws_twice_example :
    (v : World) × (launch (launcher 0) reported ≡ (
      throw (runtime_error (str "Launch: Failed to run daemon: " ++ [])),
      free_machine.kernel.close (some 8) v,
    ))
    × (v.outbox ≡ [] ++ report (str "std::ofstream: " ++ []))
launch_throws_twice_example =
    launch_throws_twice (launcher 0) params 7 8 reported reported reported reported idle set refl 13
      reported stream-Healthy refl refl (omega arith) (omega arith)

abbrev program : Program World
program = record { launcher = launcher 99; getpid = 4; system = λ cmd w. w; cli = str "mbctl" }

abbrev terminal : Terminal World
terminal = record { output = str "$ "; world = reported }

start_reports_example :
    let error = str "Launch: Failed to run daemon: " ++ message in
    let (result, after) = execute_tokens program ("mbctl" ∷ "daemon" ∷ "start" ∷ []) terminal in
    (result ≡ throw (runtime_error error)) × (after.output ≡ str "$ " ++ make_error_message error)
start_reports_example =
    start_reports program params 7 8 98 terminal reported reported reported message []
      stream-Healthy idle set refl refl (omega arith, (omega arith, tt)) (omega arith) (omega arith)
      refl

-- The port of the daemon is busy, so that `mbctl` connects to it.
abbrev client_program : Program World
client_program = record program { launcher = record (launcher 99) { machine = machine } }

abbrev params_8081 : Params
params_8081 = record {
  port = 8081;
  backlog = 8081;
  log_path = str "LOG";
  conn_attempt_count = 8081;
  conn_attempt_period = 8081;
}

command-Balanced_example :
    Balanced client_program
      (λ w. w.fds)
      (2 ∷ 1 ∷ [])
      (do_command client_program chip_status terminal)
command-Balanced_example =
    command-Balanced client_program (λ w. w.fds) kernel-Accounts
      (λ d k w bs e. recv_byte-bounded k w.inbox bs w e) (λ d k w. recv_byte-kept k w.inbox w)
      (λ d bs w. refl) (λ n w. refl) (λ cmd w. refl) params_8081 (str "0.0.0.0") set_8081 named
      chip_status terminal refl
