-- ===== src/DaemonTools/Launch.antt =====
-- Src/DaemonTools.cpp: `LaunchAt`, `Launch` and `RunHere`, and the constructor of the server in
-- Src/Server.cpp. A fork gives one process, the parent or the child, by the result of `fork`.
pub mod Reports
use roki_mb_daemon.Base.{
  ℕ, zero, suc, ◌+◌, Bool, List, [], ◌++◌, Option, none, some, ◌⊎◌, inl, inr, if◌then◌else◌,
  Exception, runtime_error, errno_exception, Outcome, ok, throw, fault, hang, ◌>>=◌, Exec, resume,
  then_do, str, what,
}
use roki_mb_daemon.Memory.{Memory}
use roki_mb_daemon.Streams.{RecvResult, Network}
use roki_mb_daemon.HwUtils.{Os}
use roki_mb_daemon.Firmware.{Firmware}
use roki_mb_daemon.Firmware.Boot.{construct}
use roki_mb_daemon.Sockets.{
  DescriptorWrapper, ServerSocket, destroy, unwind, server_socket, disable_lingering,
}
use roki_mb_daemon.DaemonTools.{
  Tools, LaunchResult, launched, refused, buffer_size, put_error, put_ack, read_result,
}
use roki_mb_daemon.DaemonTools.Session.{Params, get_params, Machine, daemon_is_running}

-- The calls of a launch: `pipe` gives the ends for reading and writing, `fork` gives 0 to the child,
-- `stream` is `read` and `write` on a descriptor, `open_log` and `daemonize` give the number of an error.
pub record Launcher (W : Type 0) : Type 0 where
  pub machine : Machine W
  pub pipe : W → (ℕ ⊎ (ℕ × ℕ)) × W
  pub fork : W → (ℕ ⊎ ℕ) × W
  pub stream : ℕ → Network W
  pub open_log : List ℕ → W → Option ℕ × W
  pub daemonize : W → Option ℕ × W
  pub strerror : ℕ → List ℕ
  -- For the constructor of the handler's firmware.
  pub char_signed : Bool
  pub before : ℕ
  pub read_end : ℕ → ℕ → W → RecvResult × W
  pub open_pipe : W → (ℕ ⊎ (ℕ × ℕ)) × W
  pub os : Os W
  pub scripts_dir : List ℕ
  -- `Server::Run`.
  pub run : ServerSocket → Exec W (Unit {0})
  -- The rounds of the loops that may run forever.
  pub fuel : ℕ

module _ {W : Type 0} (launcher : Launcher W) where
  open launcher use {machine, pipe, fork, stream, open_log, daemonize, strerror, run, fuel}

  -- `MakeHandler`.
  make_handler : Exec W (Firmware W)
  make_handler =
      construct launcher.char_signed launcher.before launcher.read_end launcher.open_pipe fuel
        launcher.os launcher.scripts_dir

  -- The constructor of `Server`, whose socket goes away where `DisableLingering` throws.
  server_at : Params → Exec W ServerSocket
  server_at p = then_do (server_socket machine.kernel 0 p.port p.backlog) (λ s w.
      unwind machine.kernel s.sock_fd
        (then_do (disable_lingering machine.kernel s) (λ _ v. (ok s, v)) w))

  unfoldable pub make_server : Params → Exec W ServerSocket
  unfolding make_handler server_at
  make_server p = then_do make_handler (λ _. server_at p)

  abbrev pub tools : W → Tools W
  tools w = record { buffer = record { cells = machine.garbage; size = buffer_size + 3 }; pipe = w }

  -- The parent's end of the pipe is closed where the result has come.
  parent_read : ℕ → Outcome LaunchResult × Tools W → Outcome LaunchResult × W
  parent_read read_fd (ok r, t) = (ok r, machine.kernel.close (some read_fd) t.pipe)
  parent_read read_fd (throw e, t) = (throw e, t.pipe)
  parent_read read_fd (fault, t) = (fault, t.pipe)
  parent_read read_fd (hang, t) = (hang, t.pipe)

  unfoldable pub parent : ℕ → Exec W LaunchResult
  unfolding parent_read
  parent read_fd w = parent_read read_fd (read_result (stream read_fd) fuel (tools w))

  -- `fdGuard`, at a return or an exception.
  guarded : {A : Type 0} → ℕ → A → Outcome (Unit {0}) × Tools W → Outcome A × W
  guarded write_fd a (ok u, t) = (ok a, machine.kernel.close (some write_fd) t.pipe)
  guarded write_fd a (throw e, t) = (throw e, machine.kernel.close (some write_fd) t.pipe)
  guarded write_fd a (fault, t) = (fault, t.pipe)
  guarded write_fd a (hang, t) = (hang, t.pipe)

  -- `PutError(writeFd, msg); return {};`
  give_up : ℕ → List ℕ → Exec W LaunchResult
  unfolding guarded
  give_up write_fd msg w =
      guarded write_fd (refused []) (put_error (stream write_fd) fuel msg (tools w))

  -- `server->Run(); exit(0);`, which does not return.
  serve_forever : ServerSocket → Exec W LaunchResult
  serve_forever s = then_do (run s) (λ _ w. (hang, w))

  -- After `PutAck`. An exception destroys the server, which closes its socket, and then runs `fdGuard`.
  acked : ℕ → ServerSocket → Outcome (Unit {0}) × Tools W → Outcome LaunchResult × W
  unfolding serve_forever
  acked write_fd s (ok u, t) = serve_forever s (machine.kernel.close (some write_fd) t.pipe)
  acked write_fd s (throw e, t) =
      (throw e, machine.kernel.close (some write_fd) (destroy machine.kernel s.sock_fd t.pipe))
  acked write_fd s (fault, t) = (fault, t.pipe)
  acked write_fd s (hang, t) = (hang, t.pipe)

  with_server : ℕ → Outcome ServerSocket → Exec W LaunchResult
  unfolding give_up acked
  with_server write_fd (ok s) w = acked write_fd s (put_ack (stream write_fd) fuel (tools w))
  with_server write_fd (throw e) w =
      give_up write_fd (str "Failed to create server: " ++ what strerror e) w
  with_server write_fd fault w = (fault, w)
  with_server write_fd hang w = (hang, w)

  with_session : Params → ℕ → Option ℕ → Exec W LaunchResult
  unfolding with_server give_up
  with_session p write_fd none w = let (r, v) = make_server p w in with_server write_fd r v
  with_session p write_fd (some e) w = give_up write_fd (str "daemon()" ++ strerror e) w

  with_log : Params → ℕ → Option ℕ → Exec W LaunchResult
  unfolding with_session give_up
  with_log p write_fd none w = let (r, v) = daemonize w in with_session p write_fd r v
  with_log p write_fd (some e) w = give_up write_fd (str "std::ofstream: " ++ strerror e) w

  unfoldable pub child : Params → ℕ → Exec W LaunchResult
  unfolding with_log
  child p write_fd w = let (r, v) = open_log p.log_path w in with_log p write_fd r v

  forked : Params → ℕ → ℕ → ℕ ⊎ ℕ → Exec W LaunchResult
  forked p read_fd write_fd (inl e) w = (throw (errno_exception (str "LaunchAt: fork()") e), w)
  forked p read_fd write_fd (inr zero) w = child p write_fd w
  forked p read_fd write_fd (inr (suc pid)) w = parent read_fd w

  piped : Params → ℕ ⊎ (ℕ × ℕ) → Exec W LaunchResult
  unfolding forked
  piped p (inl e) w = (throw (errno_exception (str "LaunchAt: pipe()") e), w)
  piped p (inr (read_fd, write_fd)) w = let (r, v) = fork w in forked p read_fd write_fd r v

  unfoldable pub launch_at : Params → Exec W LaunchResult
  unfolding piped
  launch_at p w = let (r, v) = pipe w in piped p r v

  -- `if (!result.Ok) throw …;`
  launch_ended : LaunchResult → Outcome (Unit {0})
  launch_ended launched = ok tt
  launch_ended (refused msg) = throw (runtime_error (str "Launch: Failed to run daemon: " ++ msg))

  unless_running : {A : Type 0} → List ℕ → (Params → Exec W A) → Exec W A
  unless_running caller act = then_do (daemon_is_running machine) (λ running w.
      if running
      then (throw (runtime_error (caller ++ str ": Daemon already running")), w)
      else resume (get_params machine.env) act w)

  unfoldable pub launch : Exec W (Unit {0})
  unfolding unless_running launch_ended
  launch =
      unless_running (str "Launch")
        (λ p. then_do (launch_at p) (λ result w. (launch_ended result, w)))

  -- The end of `RunHere`, where the server goes away.
  server_gone : ServerSocket → Outcome (Unit {0}) × W → Outcome (Unit {0}) × W
  server_gone s (ok u, w) = (ok u, destroy machine.kernel s.sock_fd w)
  server_gone s (throw e, w) = (throw e, destroy machine.kernel s.sock_fd w)
  server_gone s (fault, w) = (fault, w)
  server_gone s (hang, w) = (hang, w)

  unfoldable pub run_here : Exec W (Unit {0})
  unfolding unless_running server_gone
  run_here =
      unless_running (str "RunHere") (λ p. then_do (make_server p) (λ s w. server_gone s (run s w)))
