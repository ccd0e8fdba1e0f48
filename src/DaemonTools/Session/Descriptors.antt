-- ===== src/DaemonTools/Session/Descriptors.antt =====
-- Src/DaemonTools.cpp: which descriptors are open after `IsRunning` and `Connect`.
use roki_mb_daemon.Base.{
  ℕ, zero, suc, ◌+◌, ◌*◌, ◌%◌, ◌^◌, ◌≤◌, ◌<◌, ◌≡◌, refl, ◌∙◌, ap, subst, inl, inr, Bool, true,
  false, List, leb, ◌==◌, runtime_error, errno_exception, Outcome, ok, throw, fault, hang, Exec,
  resume, arith, Bool-cases,
}
use roki_mb_daemon.Sockets.{
  DescriptorWrapper, Connection, ServerSocket, destroy, htons, server_socket, ip_to_string,
  client_socket,
}
use roki_mb_daemon.Sockets.Descriptors.{
  Accounts, Owned, release, release_newest, server_socket-Owned,
}
use roki_mb_daemon.Server.Hello.Ends.{IsBounded, Ends}
use roki_mb_daemon.Client.Factory.{Factory, factory, factory_connect}
use roki_mb_daemon.Client.Connects.{factory_connect-Owned}
use roki_mb_daemon.DaemonTools.{is_running, attempt_loop, after_attempt, eaddrinuse}
use roki_mb_daemon.DaemonTools.Session.{
  Params, get_params, Machine, forget, port_is_busy, daemon_is_running, attempts, when_running,
  tools_connect,
}

module _ {W C : Type 0} (held : W → List ℕ) (owner : C → DescriptorWrapper)
    (dummy : Exec W (Unit {0})) (attempt : Exec W C) (pause : W → W) (count : ℕ)
    (attempt-Owned : (w : W) → Owned held owner (held w) (attempt w))
    (pause_held : (w : W) → held (pause w) ≡ held w) where
  one_attempt :
      (last : Bool) (fds : List ℕ) (x rest : Outcome C × W)
      → Owned held owner fds x
      → (last ≡ false → held x.1 ≡ fds → Owned held owner fds rest)
      → Owned held owner fds (after_attempt last x rest)
  one_attempt last fds (ok c, w) rest h step = h
  one_attempt true fds (throw e, w) rest h step = h
  one_attempt false fds (throw e, w) rest h step = step refl h
  one_attempt last fds (fault, w) rest h step = h
  one_attempt last fds (hang, w) rest h step = h

  attempt_loop-Owned :
      (fuel i : ℕ) (w : W)
      → i ≤ count
      → count < fuel + i
      → Owned held owner (held w) (attempt_loop dummy attempt pause count fuel i w)
  unfolding attempt_loop
  attempt_loop-Owned zero i w low enough = absurd (omega arith)
  attempt_loop-Owned (suc fuel) i w low enough =
      let v : W = pause (attempt w).1 in
      one_attempt (leb count i) (held w) (attempt w)
        (attempt_loop dummy attempt pause count fuel (i + 1) v) (attempt-Owned w)
        (λ more same.
          subst
            (λ fds. Owned held owner fds (attempt_loop dummy attempt pause count fuel (i + 1) v))
            (pause_held (attempt w).1 ∙ same)
            (attempt_loop-Owned fuel (i + 1) v (ground arith) (omega arith)))

module _ {W : Type 0} (machine : Machine W) (held : W → List ℕ)
    (accounts : Accounts machine.kernel held)
    (bounded : (d : DescriptorWrapper) → IsBounded (machine.conn_of d))
    (kept : (d : DescriptorWrapper) (k : ℕ) (w : W)
      → held ((machine.conn_of d).recv k w).1 ≡ held w)
    (rests : (n : ℕ) (w : W) → held (machine.usleep n w) ≡ held w) where
  open machine use {kernel, conn_of, usleep, garbage, env}

  -- A test that ends and leaves the descriptors of before.
  abbrev Same : {A : Type 0} → List ℕ → Outcome A × W → Type 0
  Same = Ends held

  forgotten :
      (x : Outcome ServerSocket × W) (fds : List ℕ)
      → Owned held (λ s. s.sock_fd) fds x
      → Same fds (let (r, w) = forget machine x in (is_running r, w))
  unfolding forget is_running destroy
  forgotten (ok s, w) fds (fd, o, h) =
      rw o (accounts.close_held fd w ∙ (ap (release fd) h ∙ release_newest fd fds))
  forgotten (throw (runtime_error msg), w) fds h = h
  forgotten (throw (errno_exception msg e), w) fds h = elim (Bool-cases (e == eaddrinuse)) [
    | inl yes_ ↦ rw yes_ h
    | inr no_ ↦ rw no_ h
  ]
  forgotten (fault, w) fds h = h
  forgotten (hang, w) fds h = h

  module _ (p : Params) (text : List ℕ) (set : get_params env ≡ ok p)
      (named : ip_to_string kernel 0 ≡ ok text) where
    -- `IsRunning` leaves no descriptor open, whether the port is busy or free.
    pub daemon_is_running-Same : (w : W) → Same (held w) (daemon_is_running machine w)
    unfolding daemon_is_running port_is_busy
    daemon_is_running-Same w = rw set (
        forgotten (server_socket kernel 0 p.port p.backlog w) (held w)
          (server_socket-Owned held kernel accounts 0 p.port p.backlog text w named))

    running :
        (x : Outcome Bool × W) (fds : List ℕ)
        → Same fds x
        → Owned held (λ c. c.fd) fds (resume x.0 (when_running machine) x.1)
    unfolding when_running attempts factory client_socket
    running (ok false, w) fds h = h
    running (ok true, w) fds h =
        let f : Factory = record {
          socket = record { server_addr = text; addr_in = 0; port_in = htons p.port };
          in_addr = 0;
        } in
        let loop : Exec W Connection =
          attempt_loop (λ v. (ok tt, v)) (factory_connect kernel conn_of garbage f)
            (usleep (p.conn_attempt_period * 1000 % 2 ^ 32)) p.conn_attempt_count
            (p.conn_attempt_count + 1) 0 in
        rw (set, named)
          (subst (λ xs. Owned held (λ (c : Connection). c.fd) xs (loop w)) h
            (attempt_loop-Owned held (λ c. c.fd) (λ v. (ok tt, v))
              (factory_connect kernel conn_of garbage f)
              (usleep (p.conn_attempt_period * 1000 % 2 ^ 32)) p.conn_attempt_count
              (factory_connect-Owned kernel conn_of garbage f held accounts bounded kept)
              (rests (p.conn_attempt_period * 1000 % 2 ^ 32)) (p.conn_attempt_count + 1) 0 w
              (omega arith) (omega arith)))
    running (throw e, w) fds h = h
    running (fault, w) fds h = h
    running (hang, w) fds h = h

    -- With the environment set, `Connect` either gives a connection that owns the one new descriptor or
    -- throws with as many descriptors open as before, after all its attempts too; it always ends. The
    -- address of the daemon can be printed, `recv` gives at most what is asked for, and neither it nor
    -- `usleep` opens or closes a descriptor.
    pub tools_connect-Owned : (w : W) → Owned held (λ c. c.fd) (held w) (tools_connect machine w)
    unfolding tools_connect
    tools_connect-Owned w =
        running (daemon_is_running machine w) (held w) (daemon_is_running-Same w)
