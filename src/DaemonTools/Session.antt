-- ===== src/DaemonTools/Session.antt =====
-- Src/DaemonTools.cpp: `GetParams`, `IsRunning` and `Connect` with the sockets that they open.
pub mod Descriptors
use roki_mb_daemon.Base.{
  ℕ, ◌+◌, ◌*◌, ◌%◌, ◌^◌, Bool, List, ◌++◌, Option, none, some, if◌then◌else◌, runtime_error,
  Outcome, ok, throw, fault, hang, ◌>>=◌, Exec, resume, then_do, str,
}
use roki_mb_daemon.Streams.{Network}
use roki_mb_daemon.Sockets.{
  Kernel, DescriptorWrapper, Connection, ServerSocket, destroy, server_socket,
}
use roki_mb_daemon.Client.Factory.{factory, factory_connect}
use roki_mb_daemon.DaemonTools.{is_running, attempt_loop}

-- `getenv` and `std::stoul`, and the names of the variables, which the build gives.
pub record Environment : Type 0 where
  pub getenv : List ℕ → Option (List ℕ)
  pub stoul : List ℕ → Outcome ℕ
  pub port_env : List ℕ
  pub backlog_env : List ℕ
  pub logfile_env : List ℕ
  pub attempt_count_env : List ℕ
  pub attempt_period_env : List ℕ

pub record Params : Type 0 where
  pub port : ℕ
  pub backlog : ℕ
  pub log_path : List ℕ
  pub conn_attempt_count : ℕ
  pub conn_attempt_period : ℕ

module _ (env : Environment) where
  defined : List ℕ → Option (List ℕ) → Outcome (List ℕ)
  defined name none =
      throw (runtime_error (str "GetEnv: Environment variable " ++ (name ++ str " is not defined")))
  defined name (some value) = ok value

  unfoldable pub get_env : List ℕ → Outcome (List ℕ)
  unfolding defined
  get_env name = defined name (env.getenv name)

  -- The port is cut to 16 bits.
  unfoldable pub get_params : Outcome Params
  unfolding get_env
  get_params = do
    port ← get_env env.port_env >>= env.stoul
    backlog ← get_env env.backlog_env >>= env.stoul
    log_path ← get_env env.logfile_env
    count ← get_env env.attempt_count_env >>= env.stoul
    period ← get_env env.attempt_period_env >>= env.stoul
    ok (record {
      port = port % 2 ^ 16;
      backlog = backlog;
      log_path = log_path;
      conn_attempt_count = count;
      conn_attempt_period = period;
    })

-- The system calls, the streams of the connections, `usleep`, and what memory holds by chance.
pub record Machine (W : Type 0) : Type 0 where
  pub kernel : Kernel W
  pub conn_of : DescriptorWrapper → Network W
  pub usleep : ℕ → W → W
  pub garbage : ℕ → ℕ
  pub env : Environment

module _ {W : Type 0} (machine : Machine W) where
  open machine use {kernel, conn_of, usleep, garbage, env}

  -- The end of the `try`, where `dummy` goes away.
  unfoldable forget : Outcome ServerSocket × W → Outcome (Unit {0}) × W
  forget (ok dummy, w) = (ok tt, destroy kernel dummy.sock_fd w)
  forget (throw e, w) = (throw e, w)
  forget (fault, w) = (fault, w)
  forget (hang, w) = (hang, w)

  -- The test of `IsRunning`.
  unfoldable port_is_busy : Params → Exec W Bool
  unfolding forget
  port_is_busy p w =
      let (r, w') = forget (server_socket kernel 0 p.port p.backlog w) in (is_running r, w')

  -- `IsRunning`.
  unfoldable pub daemon_is_running : Exec W Bool
  unfolding port_is_busy
  daemon_is_running w = resume (get_params env) port_is_busy w

  -- The loop of `Connect`: an attempt more than `ConnAttemptCount`.
  attempts : Params → Exec W Connection
  attempts p w =
      resume (factory kernel conn_of 0 p.port)
        (λ f.
          attempt_loop (λ v. (ok tt, v)) (factory_connect kernel conn_of garbage f)
            (usleep (p.conn_attempt_period * 1000 % 2 ^ 32)) p.conn_attempt_count
            (p.conn_attempt_count + 1) 0)
        w

  when_running : Bool → Exec W Connection
  unfolding attempts
  when_running running w =
      if running
      then resume (get_params env) attempts w
      else (throw (runtime_error (str "Connect: Daemon is not running")), w)

  -- `Connect`, by the connection of the client.
  unfoldable pub tools_connect : Exec W Connection
  unfolding when_running
  tools_connect = then_do daemon_is_running when_running
