-- ===== src/DaemonTools/Launch/Reports.antt =====
-- Src/DaemonTools.cpp: what `Launch` does in the parent and in the child where the child fails.
use roki_mb_daemon.Base.{
  ℕ, zero, suc, ◌+◌, ◌≤◌, ◌<◌, ◌≡◌, refl, inr, false, List, [], ◌++◌, All, some, runtime_error, ok,
  throw, str, length, length-append, arith,
}
use roki_mb_daemon.Streams.{Healthy}
use roki_mb_daemon.DaemonTools.Handshake.{report, read_result-report, put_error_lem}
use roki_mb_daemon.DaemonTools.Session.{Params, get_params, daemon_is_running}
use roki_mb_daemon.DaemonTools.Launch.{
  Launcher, tools, parent, parent_read, guarded, give_up, with_log, child, forked, piped, launch_at,
  launch_ended, unless_running, launch,
}

length-prefix : length (str "std::ofstream: ") ≡ 15
unfolding str
length-prefix = refl

module _ {W : Type 0} (launcher : Launcher W) (p : Params) (read_fd write_fd : ℕ) (w w₁ w₂ w₃ : W)
    (idle : daemon_is_running launcher.machine w ≡ (ok false, w₁))
    (set : get_params launcher.machine.env ≡ ok p)
    (pipes : launcher.pipe w₁ ≡ (inr (read_fd, write_fd), w₂)) where
  -- In the parent, on a healthy pipe with the report of a message behind it, `Launch` throws that
  -- message, with its own words before it, and has closed its end of the pipe. The message has at most
  -- 255 bytes and none of them is zero, and the daemon did not run before.
  pub launch_throws :
      (pid : ℕ) (msg rest : List ℕ) (healthy : Healthy (launcher.stream read_fd))
      → launcher.fork w₂ ≡ (inr (suc pid), w₃)
      → All (λ b. 0 < b) msg
      → length msg ≤ 255
      → length msg + 2 ≤ launcher.fuel
      → healthy.pending w₃ ≡ report msg ++ rest
      → (v : W) × (launch launcher w ≡ (
        throw (runtime_error (str "Launch: Failed to run daemon: " ++ msg)),
        launcher.machine.kernel.close (some read_fd) v,
      ))
        × (healthy.pending v ≡ rest)
  unfolding launch unless_running launch_at piped forked parent parent_read launch_ended
  launch_throws pid msg rest healthy forks text small enough arrived =
      let (t, ran, left) =
        read_result-report (launcher.stream read_fd) healthy launcher.fuel msg rest
          (tools launcher w₃) text small (omega arith) refl arrived in
      (t.pipe, rw (idle, set, pipes, forks, ran) refl, left)

  -- In the child, where the log file cannot be opened, `Launch` reports that to the parent, and then
  -- throws too: the child goes on as a second `mbctl` that failed without a message. The daemon did not
  -- run before, the environment is set, the pipe is healthy, the text of the error has at most 240
  -- bytes, and there are 257 rounds for the loop that writes.
  pub launch_throws_twice :
      (e : ℕ) (w₄ : W) (healthy : Healthy (launcher.stream write_fd))
      → launcher.fork w₂ ≡ (inr zero, w₃)
      → launcher.open_log p.log_path w₃ ≡ (some e, w₄)
      → length (launcher.strerror e) ≤ 240
      → 257 ≤ launcher.fuel
      → (v : W) × (launch launcher w ≡ (
        throw (runtime_error (str "Launch: Failed to run daemon: " ++ [])),
        launcher.machine.kernel.close (some write_fd) v,
      ))
        × (healthy.sent v
            ≡ healthy.sent w₄ ++ report (str "std::ofstream: " ++ launcher.strerror e))
  unfolding launch unless_running launch_at piped forked child with_log give_up guarded launch_ended
  launch_throws_twice e w₄ healthy forks logs small enough =
      let msg : List ℕ = str "std::ofstream: " ++ launcher.strerror e in
      let few : length msg ≤ 255 =
        omega (arith, length-append (str "std::ofstream: ") (launcher.strerror e), length-prefix) in
      let (t, ran, order) =
        put_error_lem (launcher.stream write_fd) healthy launcher.fuel msg (tools launcher w₄) few
          (omega arith) refl in
      (t.pipe, rw (idle, set, pipes, forks, logs, ran) refl, order)
