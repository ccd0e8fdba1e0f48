-- ===== src/Cli/Start.antt =====
-- Src/CLI.cpp: `mbctl daemon start` where the daemon cannot be launched.
use roki_mb_daemon.Base.{
  ℕ, suc, ◌+◌, ◌≤◌, ◌<◌, ◌≡◌, refl, inr, false, List, [], ◌∷◌, ◌++◌, All, c_str-whole, what,
  runtime_error, ok, throw, str, length,
}
use roki_mb_daemon.Streams.{Healthy}
use roki_mb_daemon.DaemonTools.Handshake.{report}
use roki_mb_daemon.DaemonTools.Session.{Params, get_params, daemon_is_running}
use roki_mb_daemon.DaemonTools.Launch.Reports.{launch_throws}
use roki_mb_daemon.Cli.{daemon_start, parsed, execute, run, make_cli, get_next_token}
use roki_mb_daemon.Cli.Output.{make_error_message}
use roki_mb_daemon.Cli.Commands.{Terminal}
use roki_mb_daemon.Cli.Program.{Program, do_command, reported, run_parsed, execute_tokens}

start_parsed : execute ("mbctl" ∷ "daemon" ∷ "start" ∷ []) ≡ parsed daemon_start
unfolding execute run make_cli get_next_token
start_parsed = refl

module _ {W : Type 0} (program : Program W) (p : Params) (read_fd write_fd pid : ℕ) (t : Terminal W)
    (w₁ w₂ w₃ : W) where
  open program use {launcher}
  open launcher use {machine}

  -- `mbctl daemon start`, in the parent, on a healthy pipe on which the report of a message arrives,
  -- prints an error line with the message behind the words of `Launch`, and nothing else, and throws.
  -- The conditions are those of the launch.
  pub start_reports :
      (msg rest : List ℕ) (healthy : Healthy (launcher.stream read_fd))
      → daemon_is_running machine t.world ≡ (ok false, w₁)
      → get_params machine.env ≡ ok p
      → launcher.pipe w₁ ≡ (inr (read_fd, write_fd), w₂)
      → launcher.fork w₂ ≡ (inr (suc pid), w₃)
      → All (λ b. 0 < b) msg
      → length msg ≤ 255
      → length msg + 2 ≤ launcher.fuel
      → healthy.pending w₃ ≡ report msg ++ rest
      → let error = str "Launch: Failed to run daemon: " ++ msg in
        let (result, after) = execute_tokens program ("mbctl" ∷ "daemon" ∷ "start" ∷ []) t in
        (result ≡ throw (runtime_error error))
        × (after.output ≡ t.output ++ make_error_message error)
  unfolding execute_tokens run_parsed reported do_command what str
  start_reports msg rest healthy idle set pipes forks text small enough arrived =
      let (v, ran, left) =
        launch_throws launcher p read_fd write_fd t.world w₁ w₂ w₃ idle set pipes pid msg rest
          healthy forks text small enough arrived in
      rw (start_parsed, ran, c_str-whole msg text) (refl, refl)
