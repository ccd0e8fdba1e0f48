-- ===== src/Server/Routine/Descriptors.antt =====
-- Src/Server.cpp: which descriptors the thread of a handler leaves open, and the id that it leaves behind.
use roki_mb_daemon.Base.{
  ℕ, ◌≡◌, refl, ◌∙◌, ap, subst, str, true, false, List, [], ◌∷◌, ◌++◌, none, some, Outcome, ok,
  throw, fault, hang,
}
use roki_mb_daemon.Streams.{Network}
use roki_mb_daemon.Sockets.{
  Kernel, DescriptorWrapper, wrap, move, destroy, Connection, ServerSocket, accept,
}
use roki_mb_daemon.Sockets.Descriptors.{Accounts, Owned, release, release_newest, accept-Owned}
use roki_mb_daemon.Server.{
  Session, Server, Next, again, stop, terminated, faulted, hung, serve_loop,
}
use roki_mb_daemon.Server.Keeps.{serve_loop-Kept, error-Kept}
use roki_mb_daemon.Server.Routine.{
  Thread, Fate, serving, returned, unwound, ended, undefined, stuck, CancelPoint, receiving,
  dispatching, sending, reporting, serving_on, close_all, hang_up, provided, resumed, after_rounds,
  after_accept, handler_routine, farewell, after_farewell, cancel_serving,
}

module _ {H W : Type 0} (kernel : Kernel W) (conn_of : DescriptorWrapper → Network W)
    (garbage : ℕ → ℕ) (server : Server H W) (held : W → List ℕ) (accounts : Accounts kernel held)
    (recv_held : (d : DescriptorWrapper) (k : ℕ) (w : W) → held ((conn_of d).recv k w).1 ≡ held w)
    (send_held : (d : DescriptorWrapper) (bs : List ℕ) (w : W)
      → held ((conn_of d).send bs w).1 ≡ held w) where
  -- What the thread of the handler `id` may leave: while it serves, its socket `fd` and a connection are
  -- open besides `fds`; when it has returned or was unwound, neither is, and its id was pushed.
  abbrev pub Settled : ℕ → List ℕ → List ℕ → ℕ → Fate × Thread H W → Type 0
  Settled fd fds joinables id (serving, t) =
      ((c : ℕ) × (held t.world ≡ c ∷ fd ∷ fds)) × (t.joinables ≡ joinables)
  Settled fd fds joinables id (returned, t) =
      (held t.world ≡ fds) × (t.joinables ≡ joinables ++ (id ∷ []))
  Settled fd fds joinables id (unwound, t) =
      (held t.world ≡ fds) × (t.joinables ≡ joinables ++ (id ∷ []))
  Settled fd fds joinables id (ended, t) = Unit
  Settled fd fds joinables id (undefined, t) = Unit
  Settled fd fds joinables id (stuck, t) = Unit

  close_all-held :
      (fd : ℕ) (fds : List ℕ) (socket : DescriptorWrapper) (id : ℕ) (t : Thread H W)
      → socket ≡ wrap (some fd)
      → held t.world ≡ fd ∷ fds
      → held (close_all kernel conn_of garbage server socket id t).world ≡ fds
  unfolding close_all destroy move
  close_all-held fd fds socket id t e h = rw e (
      accounts.close_none (kernel.close (some fd) t.world)
      ∙ (accounts.close_held fd t.world ∙ (ap (release fd) h ∙ release_newest fd fds)))

  close_all-joinables :
      (socket : DescriptorWrapper) (id : ℕ) (t : Thread H W)
      → (close_all kernel conn_of garbage server socket id t).joinables ≡ t.joinables ++ (id ∷ [])
  unfolding close_all destroy move
  close_all-joinables socket id t = refl

  module _ (fd : ℕ) (fds : List ℕ) (socket : ServerSocket) (id : ℕ)
      (owner : socket.sock_fd ≡ wrap (some fd)) where
    hang_up-held :
        (c : ℕ) (conn : Connection) (t : Thread H W)
        → conn.fd ≡ wrap (some c)
        → held t.world ≡ c ∷ fd ∷ fds
        → held (hang_up kernel conn_of garbage server conn socket id t).world ≡ fds
    unfolding hang_up destroy move
    hang_up-held c conn t e h =
        close_all-held fd fds socket.sock_fd id
          (record t {
            world = destroy kernel (move none conn.fd).1 (destroy kernel conn.fd t.world);
          })
          owner
          (rw e (
            accounts.close_none (kernel.close (some c) t.world)
            ∙ (accounts.close_held c t.world ∙ (ap (release c) h ∙ release_newest c (fd ∷ fds)))))

    hang_up-joinables :
        (conn : Connection) (t : Thread H W)
        → (hang_up kernel conn_of garbage server conn socket id t).joinables
          ≡ t.joinables ++ (id ∷ [])
    unfolding hang_up close_all destroy move
    hang_up-joinables conn t = refl

    after_rounds-Settled :
        (c : ℕ) (conn : Connection) (x : Next × Session H W) (t : Thread H W)
        → conn.fd ≡ wrap (some c)
        → held x.1.provider.network ≡ c ∷ fd ∷ fds
        → Settled fd fds t.joinables id
            (after_rounds kernel conn_of garbage server conn socket id x t)
    unfolding after_rounds
    after_rounds-Settled c conn (again, s) t e h = ((c, h), refl)
    after_rounds-Settled c conn (stop, s) t e h = (
      hang_up-held c conn (resumed kernel conn_of garbage server s t) e h,
      hang_up-joinables conn (resumed kernel conn_of garbage server s t),
    )
    after_rounds-Settled c conn (terminated, s) t e h = tt
    after_rounds-Settled c conn (faulted, s) t e h = tt
    after_rounds-Settled c conn (hung, s) t e h = tt

    after_accept-Settled :
        (fuel : ℕ) (x : Outcome Connection × W) (t : Thread H W)
        → Owned held (λ c. c.fd) (fd ∷ fds) x
        → Settled fd fds t.joinables id
            (after_accept kernel conn_of garbage server fuel socket id x t)
    unfolding after_accept provided
    after_accept-Settled fuel (ok conn, w) t (c, e, h) =
        let u : Thread H W = record t { world = w } in
        after_rounds-Settled c conn
          (serve_loop (serving_on kernel conn_of garbage server conn.fd) fuel
            (provided kernel conn_of garbage server u))
          u e
          (serve_loop-Kept (serving_on kernel conn_of garbage server conn.fd) held
              (recv_held conn.fd) (send_held conn.fd) fuel
              (provided kernel conn_of garbage server u)
            ∙ h)
    after_accept-Settled fuel (throw x, w) t h = (
      close_all-held fd fds socket.sock_fd id (record t { world = w }) owner h,
      close_all-joinables socket.sock_fd id (record t { world = w }),
    )
    after_accept-Settled fuel (fault, w) t h = absurd h
    after_accept-Settled fuel (hang, w) t h = absurd h

    -- However many rounds it serves: the thread of a handler that is given a socket either serves, with
    -- that socket and one connection open besides what was, or has returned, with both closed and its id
    -- pushed once; or the daemon has ended, is undefined or is stuck in a procedure. Only `socket`,
    -- `accept4` and `close` change the open descriptors.
    pub routine-Settled :
        (fuel : ℕ) (t : Thread H W)
        → held t.world ≡ fd ∷ fds
        → Settled fd fds t.joinables id
            (handler_routine kernel conn_of garbage server fuel socket id t)
    unfolding handler_routine
    routine-Settled fuel t h =
        after_accept-Settled fuel (accept kernel socket false t.world) (record t { ready = true })
          (subst (λ l. Owned held (λ c. c.fd) l (accept kernel socket false t.world)) h
            (accept-Owned held kernel accounts socket false t.world))

    -- What the cancelled thread comes to, by how telling its client ends.
    abbrev pub Dismissed : List ℕ → Outcome (Unit {0}) → Fate × Thread H W → Type 0
    Dismissed joinables (ok u) (fate, t) =
        (fate ≡ unwound) × (held t.world ≡ fds) × (t.joinables ≡ joinables ++ (id ∷ []))
    Dismissed joinables (throw e) (fate, t) = fate ≡ ended
    Dismissed joinables fault (fate, t) = fate ≡ undefined
    Dismissed joinables hang (fate, t) = fate ≡ stuck

    after_farewell-Dismissed :
        (c : ℕ) (conn : Connection) (x : Outcome (Unit {0}) × Session H W) (t : Thread H W)
        → conn.fd ≡ wrap (some c)
        → held x.1.provider.network ≡ c ∷ fd ∷ fds
        → Dismissed t.joinables x.0
            (after_farewell kernel conn_of garbage server conn socket id x t)
    unfolding after_farewell
    after_farewell-Dismissed c conn (ok u, s) t e h = (
      refl,
      hang_up-held c conn (resumed kernel conn_of garbage server s t) e h,
      hang_up-joinables conn (resumed kernel conn_of garbage server s t),
    )
    after_farewell-Dismissed c conn (throw x, s) t e h = refl
    after_farewell-Dismissed c conn (fault, s) t e h = refl
    after_farewell-Dismissed c conn (hang, s) t e h = refl

    farewell-held :
        (place : CancelPoint) (d : DescriptorWrapper) (s : Session H W)
        → held (farewell kernel conn_of garbage server place d s).1.provider.network
          ≡ held s.provider.network
    unfolding farewell
    farewell-held receiving d s = refl
    farewell-held sending d s = refl
    farewell-held reporting d s = refl
    farewell-held dispatching d s =
        error-Kept (serving_on kernel conn_of garbage server d) held (recv_held d) (send_held d)
          (str "Server closed") s

    -- A thread that serves a connection and is cancelled in `recv`, in a procedure, in the `send` of a
    -- reply or in that of an error: where telling its client returns, it closes the connection and its
    -- socket and pushes its id once; where that throws, the daemon ends; and where that is undefined or
    -- never returns, so is the thread. Only `socket`, `accept4` and `close` change the open descriptors.
    pub cancel_serving-Dismissed :
        (place : CancelPoint) (c : ℕ) (conn : Connection) (s : Session H W) (t : Thread H W)
        → conn.fd ≡ wrap (some c)
        → held s.provider.network ≡ c ∷ fd ∷ fds
        → Dismissed t.joinables
            (farewell kernel conn_of garbage server place conn.fd s).0
            (cancel_serving kernel conn_of garbage server place conn socket id s t)
    unfolding cancel_serving
    cancel_serving-Dismissed place c conn s t e h =
        after_farewell-Dismissed c conn (farewell kernel conn_of garbage server place conn.fd s) t e
          (farewell-held place conn.fd s ∙ h)
