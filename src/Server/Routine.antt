-- ===== src/Server/Routine.antt =====
-- Src/Server.cpp: `HandlerRoutine` as a whole, from the socket that the thread is given to the id that
-- it leaves behind, and what `pthread_cancel` makes of it.
pub mod Descriptors
pub mod Cancelled
use roki_mb_daemon.Base.{
  ℕ, Bool, true, false, List, [], ◌∷◌, ◌++◌, Option, none, some, Outcome, ok, throw, fault, hang,
  then_do, str,
}
use roki_mb_daemon.Streams.{Network}
use roki_mb_daemon.RpcDefs.ProcIds
use roki_mb_daemon.Rpc.{buf_size, pack_error, send_package}
use roki_mb_daemon.Sockets.{
  Kernel, DescriptorWrapper, move, destroy, Connection, ServerSocket, accept,
}
use roki_mb_daemon.Server.{
  Session, Server, Next, again, stop, terminated, faulted, hung, on_provider, serve_loop,
}

-- What the thread works on: the handler and the flag that all threads share, the kernel, its `ready`,
-- and `Joinables`.
pub record Thread (H W : Type 0) : Type 0 where
  pub handler : H
  pub world : W
  pub do_shutdown : Bool
  pub ready : Bool
  pub joinables : List ℕ

-- How the function of the thread ends, if it does. `unwound`: `pthread_cancel` has unwound it.
-- `ended`: an exception that nobody catches has ended the daemon.
pub data Fate : Type 0 where
  serving returned unwound ended undefined stuck : Fate

-- Where a thread that serves a client is when it is cancelled: in `recv`, in a call that a procedure
-- makes, in the `send` of a reply, or in a `send` of `catch (std::exception&)`. (Logging is left out.)
pub data CancelPoint : Type 0 where
  receiving dispatching sending reporting : CancelPoint

module _ {H W : Type 0} (kernel : Kernel W) (conn_of : DescriptorWrapper → Network W)
    (garbage : ℕ → ℕ) (server : Server H W) where
  -- The server whose thread serves this connection.
  abbrev pub serving_on : DescriptorWrapper → Server H W
  serving_on d = record server { net = conn_of d }

  -- The end of the function: the socket is closed, and the `Defer` pushes the id. What is left of the
  -- socket that the thread was given holds no descriptor.
  unfoldable pub close_all : DescriptorWrapper → ℕ → Thread H W → Thread H W
  unfolding destroy move
  close_all socket id t =
      let closed = destroy kernel socket t.world in
      let (_, given) = move none socket in
      record t { world = destroy kernel given closed; joinables = t.joinables ++ (id ∷ []) }

  -- The connection, which is now in `rpc`, goes away, and what is left of it in `conn`; then the rest.
  unfoldable pub hang_up : Connection → ServerSocket → ℕ → Thread H W → Thread H W
  unfolding close_all move destroy
  hang_up conn socket id t =
      let (_, moved) = move none conn.fd in
      close_all socket.sock_fd id
        (record t { world = destroy kernel moved (destroy kernel conn.fd t.world) })

  -- `RPCProvider rpc{std::move(*conn), ErrCode};`
  unfoldable pub provided : Thread H W → Session H W
  provided t = record {
    handler = t.handler;
    provider = record {
      buffer = record { cells = garbage; size = buf_size };
      err_code = ProcIds.error;
      network = t.world;
    };
    do_shutdown = t.do_shutdown;
  }

  -- The thread that has this session.
  abbrev pub resumed : Session H W → Thread H W → Thread H W
  resumed s t = record t {
    handler = s.handler;
    world = s.provider.network;
    do_shutdown = s.do_shutdown;
  }

  -- What the loop makes of the thread.
  unfoldable pub after_rounds :
      Connection → ServerSocket → ℕ → Next × Session H W → Thread H W → Fate × Thread H W
  unfolding hang_up
  after_rounds conn socket id (again, s) t = (serving, resumed s t)
  after_rounds conn socket id (stop, s) t = (returned, hang_up conn socket id (resumed s t))
  after_rounds conn socket id (terminated, s) t = (ended, resumed s t)
  after_rounds conn socket id (faulted, s) t = (undefined, resumed s t)
  after_rounds conn socket id (hung, s) t = (stuck, resumed s t)

  -- After `Accept`. Where it throws, `conn` is still a null pointer.
  unfoldable pub after_accept :
      ℕ → ServerSocket → ℕ → Outcome Connection × W → Thread H W → Fate × Thread H W
  unfolding after_rounds provided close_all
  after_accept fuel socket id (ok conn, w) t =
      let u = record t { world = w } in
      after_rounds conn socket id (serve_loop (serving_on conn.fd) fuel (provided u)) u
  after_accept fuel socket id (throw e, w) t =
      (returned, close_all socket.sock_fd id (record t { world = w }))
  after_accept fuel socket id (fault, w) t = (undefined, record t { world = w })
  after_accept fuel socket id (hang, w) t = (stuck, record t { world = w })

  -- `HandlerRoutine`, for at most `fuel` rounds of its loop.
  unfoldable pub handler_routine : ℕ → ServerSocket → ℕ → Thread H W → Fate × Thread H W
  unfolding after_accept
  handler_routine fuel socket id t =
      after_accept fuel socket id (accept kernel socket false t.world) (record t { ready = true })

  -- `catch (ForcedUnwind&)` in the loop. The guards have cleared `connOk` where `recv` or the `send` of a
  -- reply was cancelled, and the client is told nothing; nor is it where another `catch` is left.
  unfoldable pub farewell :
      CancelPoint → DescriptorWrapper → Session H W → Outcome (Unit {0}) × Session H W
  unfolding on_provider
  farewell dispatching d s =
      on_provider (serving_on d)
        (then_do (pack_error (conn_of d) (str "Server closed"))
          λ _. send_package (conn_of d) server.char_signed)
        s
  farewell receiving d s = (ok tt, s)
  farewell sending d s = (ok tt, s)
  farewell reporting d s = (ok tt, s)

  -- The unwinding of a thread that serves. An exception that takes the place of the unwinding ends the
  -- daemon, since the unwinding may not be caught for good.
  unfoldable pub after_farewell :
      Connection
      → ServerSocket
      → ℕ
      → Outcome (Unit {0}) × Session H W
      → Thread H W
      → Fate × Thread H W
  unfolding hang_up
  after_farewell conn socket id (ok u, s) t = (unwound, hang_up conn socket id (resumed s t))
  after_farewell conn socket id (throw e, s) t = (ended, resumed s t)
  after_farewell conn socket id (fault, s) t = (undefined, resumed s t)
  after_farewell conn socket id (hang, s) t = (stuck, resumed s t)

  unfoldable pub cancel_serving :
      CancelPoint → Connection → ServerSocket → ℕ → Session H W → Thread H W → Fate × Thread H W
  unfolding after_farewell farewell
  cancel_serving place conn socket id s t =
      after_farewell conn socket id (farewell place conn.fd s) t

  -- A thread that waits in `Accept` when it is cancelled.
  unfoldable pub cancel_accepting : ServerSocket → ℕ → Thread H W → Fate × Thread H W
  unfolding close_all
  cancel_accepting socket id t = (unwound, close_all socket.sock_fd id (record t { ready = true }))
