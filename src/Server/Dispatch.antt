-- ===== src/Server/Dispatch.antt =====
-- Src/Server.cpp: a round of `DispatchRoutine`, from a new client to the hello that it is sent. How the
-- threads interleave is in Server/Threads.antt; `readyCond.wait` is passed over here.
pub mod Descriptors
use roki_mb_daemon.Base.{
  ℕ, ◌+◌, ◌%◌, ◌^◌, false, List, [], ◌∷◌, ◌++◌, Option, none, some, errno_exception, Exception,
  Outcome, ok, throw, fault, hang, Exec, then_do, str,
}
use roki_mb_daemon.Streams.{Network}
use roki_mb_daemon.Sockets.{
  Kernel, DescriptorWrapper, move, destroy, Connection, ServerSocket, accept,
}
use roki_mb_daemon.Server.Ports.{Ports, create_handler_socket}
use roki_mb_daemon.Server.Hello.{Hello, hello_message, hello_send}

-- What the thread works on. `started` lists the threads that it has started, each with the id and the
-- socket that it was given; `registered` is `Handlers`.
pub record Dispatcher (W : Type 0) : Type 0 where
  pub ports : Ports W
  pub open ports use {current_port, world}
  pub current_id : ℕ
  pub started : List (ℕ × ServerSocket)
  pub registered : List ℕ

module _ {W : Type 0} (kernel : Kernel W) (sleep : W → W) (conn_of : DescriptorWrapper → Network W)
    (start_thread : W → Option ℕ × W) where
  abbrev pub with_world : Dispatcher W → W → Dispatcher W
  with_world d w = record d { ports = record d.ports { world = w } }

  abbrev pub on_kernel : {A : Type 0} → Exec W A → Exec (Dispatcher W) A
  on_kernel m d = let (r, w) = m d.world in (r, with_world d w)

  abbrev pub on_ports : {A : Type 0} → Exec (Ports W) A → Exec (Dispatcher W) A
  on_ports m d = let (r, p) = m d.ports in (r, record d { ports = p })

  -- The end of the scope of an owner, by a return or by an exception.
  unfoldable pub end_scope :
      {A : Type 0} → DescriptorWrapper → Outcome A × Dispatcher W → Outcome A × Dispatcher W
  unfolding destroy
  end_scope owner (ok a, d) = (ok a, with_world d (destroy kernel owner d.world))
  end_scope owner (throw e, d) = (throw e, with_world d (destroy kernel owner d.world))
  end_scope owner (fault, d) = (fault, d)
  end_scope owner (hang, d) = (hang, d)

  -- `hello.Send(helloConn.GetFd())`.
  unfoldable pub send_hello : DescriptorWrapper → ℕ → Exec W (Unit {0})
  send_hello fd port w = let (r, h) = hello_send (conn_of fd) (hello_message port w) in (r, h.conn)

  -- `std::thread handlerThread(…)`: the socket is moved into the arguments of the new thread. Where no
  -- thread can be started, they go away again.
  unfoldable pub after_start :
      DescriptorWrapper
      → ServerSocket
      → ℕ
      → Option ℕ × W
      → Dispatcher W
      → Outcome (Unit {0}) × Dispatcher W
  unfolding send_hello destroy move
  after_start hello_fd socket id (none, w) d =
      let (fd, _) = move none socket.sock_fd in
      on_kernel (send_hello hello_fd socket.server_port) (record (with_world d w) {
        started = d.started ++ ((id, record socket { sock_fd = fd }) ∷ []);
        registered = d.registered ++ (id ∷ []);
      })
  after_start hello_fd socket id (some e, w) d =
      let (fd, _) = move none socket.sock_fd in
      (throw (errno_exception (str "std::thread") e), with_world d (destroy kernel fd w))

  -- With the socket: `handlerSocket`, from which it has been moved, goes away at the end.
  unfoldable pub hand_socket :
      DescriptorWrapper → ℕ → ServerSocket → Dispatcher W → Outcome (Unit {0}) × Dispatcher W
  unfolding after_start end_scope move
  hand_socket hello_fd id socket d =
      let (_, rest) = move none socket.sock_fd in
      end_scope rest (after_start hello_fd socket id (start_thread d.world) d)

  -- With the connection: `size_t newId = CurrentId++;`, and the rest.
  unfoldable pub welcome : ℕ → Connection → Dispatcher W → Outcome (Unit {0}) × Dispatcher W
  unfolding hand_socket end_scope
  welcome fuel conn d =
      let e = record d { current_id = (d.current_id + 1) % 2 ^ 64 } in
      end_scope conn.fd (
        then_do (on_ports (create_handler_socket kernel sleep fuel))
          (hand_socket conn.fd d.current_id) e)

  -- The body of the loop, with at most `fuel` ports tried. A throw leaves the loop.
  unfoldable pub dispatch_round : ℕ → ServerSocket → Exec (Dispatcher W) (Unit {0})
  unfolding welcome
  dispatch_round fuel listening = then_do (on_kernel (accept kernel listening false)) (welcome fuel)
