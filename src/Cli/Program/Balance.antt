-- ===== src/Cli/Program/Balance.antt =====
-- Src/CLI.cpp, Src/Client.cpp, Src/DaemonTools.cpp: which descriptors a command of `mbctl` leaves open.
use roki_mb_daemon.Base.{
  ℕ, ◌≡◌, refl, ◌∙◌, ap, subst, Bool, true, false, List, ◌∷◌, ◌++◌, some, Outcome, ok, throw, fault,
  hang, Exec, resume, then_do, str, if-Keeps, resume-Keeps, then_do-Keeps,
}
use roki_mb_daemon.Streams.{Network}
use roki_mb_daemon.RpcDefs.ProcIds
use roki_mb_daemon.RpcDefs.{to_str}
use roki_mb_daemon.Rpc.{MsgHeader, recv_package, pack_msg, send_package}
use roki_mb_daemon.Rpc.Keeps.{on_network, recv_package-Still, send_package-Still, pack_msg-Still}
use roki_mb_daemon.Client.{call, proc_message}
use roki_mb_daemon.Sockets.{Connection, wrap, destroy, ip_to_string}
use roki_mb_daemon.Sockets.Descriptors.{Accounts, Owned, release, release_newest}
use roki_mb_daemon.Server.Hello.Ends.{IsBounded, Ends}
use roki_mb_daemon.DaemonTools.Session.{Params, get_params, daemon_is_running, tools_connect}
use roki_mb_daemon.DaemonTools.Session.Descriptors.{tools_connect-Owned, daemon_is_running-Same}
use roki_mb_daemon.Cli.{
  Command, chip_start, chip_stop, chip_status, chip_flash, daemon_start, daemon_stop, daemon_status,
  daemon_kill, daemon_logs, debug_start, debug_throw, debug_block, debug_connect, debug_disconnect,
  help,
}
use roki_mb_daemon.Cli.Output.{endl, put_daemon_params}
use roki_mb_daemon.Cli.Commands.{
  Terminal, Attached, show, on_provider, empty_message, no_reply, goodbye, plain, flash, status,
  connect_user,
}
use roki_mb_daemon.Cli.Descriptors.{
  Leaves, wire, Leaves-then, Leaves-provider, Leaves-call, Leaves-goodbye, plain-Leaves,
  flash-Leaves, status-Leaves, connect_user-Leaves,
}
use roki_mb_daemon.Cli.Program.{
  Program, detach, attach, using_client, after_throw, throwing, pinged, ping, params, report_status,
  do_command,
}

module _ {W : Type 0} (program : Program W) (held : W → List ℕ) where
  open program use {launcher, system}
  open launcher use {machine, char_signed, strerror}
  open machine use {kernel, conn_of, env}

  -- As many descriptors are open after a command as before, if it returns or throws.
  abbrev pub Balanced : List ℕ → Outcome (Unit {0}) × Terminal W → Type 0
  Balanced fds (ok u, t) = held t.world ≡ fds
  Balanced fds (throw e, t) = held t.world ≡ fds
  Balanced fds (fault, t) = Unit
  Balanced fds (hang, t) = Unit

  -- The commands that start the daemon.
  abbrev pub starts_daemon : Command → Bool
  starts_daemon daemon_start = true
  starts_daemon debug_start = true
  starts_daemon c = false

  module _ (accounts : Accounts kernel held) (bounded : (d : _) → IsBounded (conn_of d))
      (recv_held : (d : _) (k : ℕ) (w : W) → held ((conn_of d).recv k w).1 ≡ held w)
      (send_held : (d : _) (bs : List ℕ) (w : W) → held ((conn_of d).send bs w).1 ≡ held w)
      (usleep_held : (n : ℕ) (w : W) → held (machine.usleep n w) ≡ held w)
      (system_held : (cmd : List ℕ) (w : W) → held (system cmd w) ≡ held w) where
    detach-Balanced :
        (c : ℕ) (fds : List ℕ) (conn : Connection) (x : Outcome (Unit {0}) × Attached W)
        → conn.fd ≡ wrap (some c)
        → held x.1.provider.network ≡ c ∷ fds
        → Balanced fds (detach program conn x)
    unfolding detach destroy
    detach-Balanced c fds conn (ok u, s) e h =
        rw e (accounts.close_held c s.provider.network ∙ (ap (release c) h ∙ release_newest c fds))
    detach-Balanced c fds conn (throw x, s) e h =
        rw e (accounts.close_held c s.provider.network ∙ (ap (release c) h ∙ release_newest c fds))
    detach-Balanced c fds conn (fault, s) e h = tt
    detach-Balanced c fds conn (hang, s) e h = tt

    module _ (conn : Connection) where
      abbrev net : Network W
      net = conn_of conn.fd

      abbrev open_fds : Attached W → List ℕ
      open_fds = wire net char_signed held (recv_held conn.fd) (send_held conn.fd)

      after_throw-Leaves : (header : MsgHeader) → Leaves open_fds (after_throw program net header)
      unfolding after_throw
      after_throw-Leaves header = record {
        at = λ a.
            if-Keeps open_fds header.is_ok (ok tt, a) _ (open_fds a) refl
              (resume-Keeps open_fds (to_str char_signed ProcIds.debug_throw)
                (λ name. show (str "Error arrived: " ++ (proc_message name header.msg ++ endl)))
                (λ name b. refl) a);
      }

      throwing-Leaves : Leaves open_fds (throwing program net)
      unfolding throwing
      throwing-Leaves =
          Leaves-then open_fds
            (then_do
              (on_provider (
                then_do (pack_msg ProcIds.debug_throw 0 (empty_message net char_signed))
                  (λ _. then_do (send_package net char_signed) (λ _. recv_package net))))
              (after_throw program net))
            (λ _. goodbye net char_signed)
            (Leaves-then open_fds
              (on_provider (
                then_do (pack_msg ProcIds.debug_throw 0 (empty_message net char_signed))
                  (λ _. then_do (send_package net char_signed) (λ _. recv_package net))))
              (after_throw program net)
              (Leaves-provider net char_signed held (recv_held conn.fd) (send_held conn.fd)
                (then_do (pack_msg ProcIds.debug_throw 0 (empty_message net char_signed))
                  (λ _. then_do (send_package net char_signed) (λ _. recv_package net)))
                (then_do-Keeps (on_network net held)
                  (pack_msg ProcIds.debug_throw 0 (empty_message net char_signed))
                  (λ _. then_do (send_package net char_signed) (λ _. recv_package net))
                  (pack_msg-Still net held ProcIds.debug_throw 0 (empty_message net char_signed))
                  (λ _.
                    then_do-Keeps (on_network net held) (send_package net char_signed)
                      (λ _. recv_package net)
                      (send_package-Still net held (recv_held conn.fd) (send_held conn.fd)
                        char_signed)
                      (λ _. recv_package-Still net held (recv_held conn.fd) (send_held conn.fd)))))
              after_throw-Leaves)
            (λ _. Leaves-goodbye net char_signed held (recv_held conn.fd) (send_held conn.fd))

      pinged-Leaves : (r : Outcome (Unit {0})) → Leaves open_fds (pinged program net r)
      unfolding pinged
      pinged-Leaves (ok u) =
          Leaves-then open_fds (show (str "Daemon ping: OK" ++ endl)) (λ _. goodbye net char_signed)
            (record { at = λ a. refl })
            (λ _. Leaves-goodbye net char_signed held (recv_held conn.fd) (send_held conn.fd))
      pinged-Leaves (throw e) = record { at = λ a. refl }
      pinged-Leaves fault = record { at = λ a. refl }
      pinged-Leaves hang = record { at = λ a. refl }

      ping-Leaves : Leaves open_fds (ping program net)
      unfolding ping
      ping-Leaves = record {
        at = λ a.
            let asked =
              on_provider
                (call net char_signed ProcIds.ping 0 (empty_message net char_signed)
                  (no_reply net char_signed))
                a in
            (pinged-Leaves asked.0).at asked.1
            ∙ (Leaves-call net char_signed held (recv_held conn.fd) (send_held conn.fd) ProcIds.ping
                  0 (empty_message net char_signed) (no_reply net char_signed)).at
                a;
      }

    module _ (p : Params) (text : List ℕ) (set : get_params env ≡ ok p)
        (named : ip_to_string kernel 0 ≡ ok text) where
      attached :
          (body : Network W → Exec (Attached W) (Unit {0})) (t : Terminal W)
          (x : Outcome Connection × W)
          → ((conn : Connection) → Leaves (open_fds conn) (body (conn_of conn.fd)))
          → Owned held (λ c. c.fd) (held t.world) x
          → Balanced (held t.world) (
              resume x.0
                (λ conn u. detach program conn (body (conn_of conn.fd) (attach program u)))
                (record t { world = x.1 }))
      attached body t (ok conn, w) leaves (c, e, h) =
          detach-Balanced c (held t.world) conn _ e
            ((leaves conn).at (attach program (record t { world = w })) ∙ h)
      attached body t (throw x, w) leaves h = h
      attached body t (fault, w) leaves h = tt
      attached body t (hang, w) leaves h = tt

      using_client-Balanced :
          (body : Network W → Exec (Attached W) (Unit {0})) (t : Terminal W)
          → ((conn : Connection) → Leaves (open_fds conn) (body (conn_of conn.fd)))
          → Balanced (held t.world) (using_client program body t)
      unfolding using_client
      using_client-Balanced body t leaves = attached body t (tools_connect machine t.world) leaves (
          tools_connect-Owned machine held accounts bounded recv_held usleep_held p text set named
            t.world)

      plain-Balanced :
          (id : ℕ) (t : Terminal W)
          → Balanced (held t.world) (using_client program (λ net. plain net char_signed id) t)
      plain-Balanced id t =
          using_client-Balanced (λ net. plain net char_signed id) t
            (λ conn.
              plain-Leaves (conn_of conn.fd) char_signed held (recv_held conn.fd)
                (send_held conn.fd) id)

      status_reported :
          (t : Terminal W) (x : Outcome Bool × W)
          → Ends held (held t.world) x
          → Balanced (held t.world) (resume x.0 (report_status program) (record t { world = x.1 }))
      unfolding report_status params
      status_reported t (ok true, w) h = rw set (
          subst
            (λ fds. Balanced fds (
              using_client program (ping program) (record {
                output =
                    (t.output ++ (str "Daemon status: running" ++ endl)) ++ put_daemon_params p;
                world = w;
              })))
            h (using_client-Balanced (ping program) _ ping-Leaves))
      status_reported t (ok false, w) h = h
      status_reported t (throw e, w) h = h
      status_reported t (fault, w) h = tt
      status_reported t (hang, w) h = tt

      -- Every command of `mbctl` that does not start the daemon leaves as many descriptors open as there
      -- were, whether it returns or throws. The environment is set, the daemon's address can be printed,
      -- `recv` gives at most what is asked for, and only `socket`, `accept4` and `close` change the open
      -- descriptors.
      pub command-Balanced :
          (c : Command) (t : Terminal W)
          → starts_daemon c ≡ false
          → Balanced (held t.world) (do_command program c t)
      unfolding do_command params
      command-Balanced chip_start t n = plain-Balanced ProcIds.start t
      command-Balanced chip_stop t n = plain-Balanced ProcIds.reset t
      command-Balanced (chip_flash path) t n =
          using_client-Balanced (λ net. flash net char_signed (str path)) t
            (λ conn.
              flash-Leaves (conn_of conn.fd) char_signed held (recv_held conn.fd)
                (send_held conn.fd) (str path))
      command-Balanced chip_status t n =
          using_client-Balanced (λ net. status net char_signed) t
            (λ conn.
              status-Leaves (conn_of conn.fd) char_signed held (recv_held conn.fd)
                (send_held conn.fd))
      command-Balanced daemon_start t n = absurd (cc)
      command-Balanced daemon_stop t n = plain-Balanced ProcIds.shutdown t
      command-Balanced daemon_status t n = status_reported t (daemon_is_running machine t.world) (
          daemon_is_running-Same machine held accounts bounded recv_held usleep_held p text set
            named t.world)
      command-Balanced daemon_kill t n = rw set (system_held _ t.world)
      command-Balanced daemon_logs t n = rw set (system_held _ t.world)
      command-Balanced debug_start t n = absurd (cc)
      command-Balanced debug_throw t n = using_client-Balanced (throwing program) t throwing-Leaves
      command-Balanced debug_block t n = plain-Balanced ProcIds.debug_block t
      command-Balanced debug_connect t n =
          using_client-Balanced (λ net. connect_user net char_signed program.getpid) t
            (λ conn.
              connect_user-Leaves (conn_of conn.fd) char_signed held (recv_held conn.fd)
                (send_held conn.fd) program.getpid)
      command-Balanced debug_disconnect t n = plain-Balanced ProcIds.disconnect t
      command-Balanced help t n = refl
