-- ===== src/Cli/Program.antt =====
-- Src/CLI.cpp: a whole run of `mbctl`, from its arguments to what it prints.
pub mod Balance
use roki_mb_daemon.Base.{
  ℕ, ◌+◌, String, Bool, List, [], ◌∷◌, ◌++◌, Option, none, some, if◌then◌else◌, runtime_error,
  Outcome, ok, throw, fault, hang, ◌>>=◌, Exec, resume, then_do, str, what, to_string,
}
use roki_mb_daemon.RpcDefs.ProcIds
use roki_mb_daemon.RpcDefs.{to_str}
use roki_mb_daemon.Streams.{Network}
use roki_mb_daemon.Sockets.{Connection, destroy}
use roki_mb_daemon.Rpc.{buf_size, MsgHeader, pack_msg, send_package, recv_package}
use roki_mb_daemon.Client.{call, proc_message}
use roki_mb_daemon.DaemonTools.Session.{Params, get_params, daemon_is_running, tools_connect}
use roki_mb_daemon.DaemonTools.Launch.{Launcher, launch, run_here}
use roki_mb_daemon.Cli.{
  Command, chip_start, chip_stop, chip_status, chip_flash, daemon_start, daemon_stop, daemon_status,
  daemon_kill, daemon_logs, debug_start, debug_throw, debug_block, debug_connect, debug_disconnect,
  help, Parsed, parsed, syntax_exception, execute,
}
use roki_mb_daemon.Cli.Output.{
  endl, put_daemon_params, make_error_message, make_syntax_error_message, syntax_text, do_help,
}
use roki_mb_daemon.Cli.Commands.{
  Terminal, Attached, put, show, on_world, on_provider, with_result, empty_message, no_reply,
  goodbye, plain, flash, status, connect_user,
}

-- The rest of the program's surroundings: `getpid`, `system`, and the name of the executable.
pub record Program (W : Type 0) : Type 0 where
  pub launcher : Launcher W
  pub getpid : ℕ
  pub system : List ℕ → W → W
  pub cli : List ℕ

module _ {W : Type 0} (program : Program W) where
  open program use {launcher, getpid, system, cli}
  open launcher use {machine, char_signed, strerror}

  -- The end of a scope that owns a client.
  detach : {A : Type 0} → Connection → Outcome A × Attached W → Outcome A × Terminal W
  detach conn (ok a, s) = (
    ok a,
    record { output = s.output; world = destroy machine.kernel conn.fd s.provider.network },
  )
  detach conn (throw e, s) = (
    throw e,
    record { output = s.output; world = destroy machine.kernel conn.fd s.provider.network },
  )
  detach conn (fault, s) = (fault, record { output = s.output; world = s.provider.network })
  detach conn (hang, s) = (hang, record { output = s.output; world = s.provider.network })

  abbrev attach : Terminal W → Attached W
  attach t = record {
    output = t.output;
    provider = record {
      buffer = record { cells = machine.garbage; size = buf_size };
      err_code = ProcIds.error;
      network = t.world;
    };
  }

  -- `MakeClient`, and what is done with the client.
  unfoldable pub using_client :
      (Network W → Exec (Attached W) (Unit {0})) → Exec (Terminal W) (Unit {0})
  unfolding detach
  using_client body =
      then_do (on_world (tools_connect machine))
        (λ conn t. detach conn (body (machine.conn_of conn.fd) (attach t)))

  -- The `catch` of a `ProcException`, which only the header of a reply can cause.
  after_throw : Network W → MsgHeader → Exec (Attached W) (Unit {0})
  after_throw net header a =
      if header.is_ok
      then (ok tt, a)
      else then_do (with_result (to_str char_signed ProcIds.debug_throw))
          (λ name. show (str "Error arrived: " ++ (proc_message name header.msg ++ endl))) a

  throwing : Network W → Exec (Attached W) (Unit {0})
  unfolding after_throw goodbye
  throwing net =
      then_do
        (then_do
          (on_provider (
            then_do (pack_msg ProcIds.debug_throw 0 (empty_message net char_signed))
              (λ _. then_do (send_package net char_signed) (λ _. recv_package net))))
          (after_throw net))
        (λ _. goodbye net char_signed)

  -- The `try` around the ping.
  pinged : Network W → Outcome (Unit {0}) → Exec (Attached W) (Unit {0})
  unfolding goodbye
  pinged net (ok u) = then_do (show (str "Daemon ping: OK" ++ endl)) (λ _. goodbye net char_signed)
  pinged net (throw e) =
      then_do (show (str "Failed to ping daemon: " ++ (what strerror e ++ endl)))
        (λ _ a. (throw e, a))
  pinged net fault = λ a. (fault, a)
  pinged net hang = λ a. (hang, a)

  ping : Network W → Exec (Attached W) (Unit {0})
  unfolding pinged
  ping net a =
      let (r, b) =
        on_provider
          (call net char_signed ProcIds.ping 0 (empty_message net char_signed)
            (no_reply net char_signed))
          a in
      pinged net r b

  params : Exec (Terminal W) Params
  params t = (get_params machine.env, t)

  report_status : Bool → Exec (Terminal W) (Unit {0})
  unfolding params ping using_client
  report_status running t =
      if running
      then then_do (put (str "Daemon status: running" ++ endl))
          (λ _. then_do params (λ p. then_do (put (put_daemon_params p)) (λ _. using_client ping)))
          t
      else put (str "Daemon status: not running" ++ endl) t

  -- The `Do…` functions.
  unfoldable pub do_command : Command → Exec (Terminal W) (Unit {0})
  unfolding using_client plain flash status connect_user throwing report_status params
  do_command chip_start = using_client (λ net. plain net char_signed ProcIds.start)
  do_command chip_stop = using_client (λ net. plain net char_signed ProcIds.reset)
  do_command (chip_flash path) = using_client (λ net. flash net char_signed (str path))
  do_command chip_status = using_client (λ net. status net char_signed)
  do_command daemon_start = then_do (on_world (launch launcher)) (λ _.
      then_do (put (str "Daemon launched successfully" ++ endl))
        (λ _. then_do params (λ p. put (put_daemon_params p))))
  do_command daemon_stop = using_client (λ net. plain net char_signed ProcIds.shutdown)
  do_command daemon_status = then_do (on_world (daemon_is_running machine)) report_status
  do_command daemon_kill = then_do params (λ p.
      let cmd = str "sudo fuser -k " ++ (to_string p.port ++ str "/tcp") in
      then_do (on_world (λ w. (ok tt, system cmd w))) (λ _. put (cmd ++ endl)))
  do_command daemon_logs =
      then_do params (λ p. on_world (λ w. (ok tt, system (str "cat " ++ p.log_path) w)))
  do_command debug_start = on_world (run_here launcher)
  do_command debug_throw = using_client throwing
  do_command debug_block = using_client (λ net. plain net char_signed ProcIds.debug_block)
  do_command debug_connect = using_client (λ net. connect_user net char_signed getpid)
  do_command debug_disconnect = using_client (λ net. plain net char_signed ProcIds.disconnect)
  do_command help = put (do_help cli)

  -- The `catch` of a `std::exception` in `Run`, which throws on.
  unfoldable pub reported : Outcome (Unit {0}) × Terminal W → Outcome (Unit {0}) × Terminal W
  reported (ok u, t) = (ok u, t)
  reported (throw e, t) =
      (throw e, record t { output = t.output ++ make_error_message (what strerror e) })
  reported (fault, t) = (fault, t)
  reported (hang, t) = (hang, t)

  -- `Run`: the tokens are read before anything is called. A `SyntaxException` is a `runtime_error`
  -- here.
  unfoldable pub run_parsed : List String → Parsed Command → Exec (Terminal W) (Unit {0})
  unfolding do_command reported
  run_parsed tokens (parsed command) t = reported (do_command command t)
  run_parsed tokens (syntax_exception index e) t = (
    throw (runtime_error (syntax_text e)),
    record t { output = t.output ++ make_syntax_error_message cli tokens index e },
  )

  unfoldable pub execute_tokens : List String → Exec (Terminal W) (Unit {0})
  unfolding run_parsed
  execute_tokens tokens = run_parsed tokens (execute tokens)

  -- The loop over `argv` from number `i` on; `none` is a null pointer.
  unfoldable pub read_args : ℕ → List (Option String) → Outcome (List String)
  read_args i [] = ok []
  read_args i (none ∷ args) =
      throw (runtime_error (str "Execute: argv[" ++ (to_string i ++ str "] is NULL")))
  read_args i (some arg ∷ args) = do tokens ← read_args (i + 1) args; ok (arg ∷ tokens)

  execute_array : Option (List (Option String)) → Outcome (List String)
  unfolding read_args
  execute_array none = throw (runtime_error (str "Execute: argv is NULL"))
  execute_array (some args) = read_args 0 args

  -- `Execute(argc, argv)`.
  unfoldable pub execute_args : Option (List (Option String)) → Exec (Terminal W) (Unit {0})
  unfolding execute_tokens execute_array
  execute_args argv t = resume (execute_array argv) execute_tokens t
