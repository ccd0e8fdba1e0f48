-- ===== src/Examples/Routine.antt =====
-- The thread of a handler, the thread that dispatches, and the mock, on concrete inputs.
use roki_mb_daemon.Base.{
  ℕ, ◌+◌, ◌≡◌, refl, inr, true, false, [], ◌∷◌, ◌++◌, Option, none, some, ok, str, length,
}
use roki_mb_daemon.RpcDefs.ProcIds
use roki_mb_daemon.Rpc.Send.{packed}
use roki_mb_daemon.Firmware.{running}
use roki_mb_daemon.Handler.{Handler}
use roki_mb_daemon.Sockets.{
  Kernel, Connection, ServerSocket, wrap, destroy, accept, ip_to_string, address,
}
use roki_mb_daemon.Sockets.Descriptors.{Accounts, obtained}
use roki_mb_daemon.Server.{Session, Server, faulted, serve_round}
use roki_mb_daemon.Server.Handlers.{handler_impl, has_content}
use roki_mb_daemon.Server.Rounds.{Asks}
use roki_mb_daemon.Server.Requests.{Plain, plain-Asks}
use roki_mb_daemon.Server.Mock.{mock_server, mock_faults}
use roki_mb_daemon.Server.Routine.{
  Thread, dispatching, handler_routine, farewell, cancel_serving, unwound, hang_up, resumed,
}
use roki_mb_daemon.Server.Routine.Descriptors.{
  Settled, routine-Settled, Dismissed, cancel_serving-Dismissed,
}
use roki_mb_daemon.Server.Routine.Cancelled.{busy_told, closed}
use roki_mb_daemon.Server.Dispatch.{Dispatcher, dispatch_round}
use roki_mb_daemon.Server.Dispatch.Descriptors.{Dispatched, hello_of, dispatch_round-Dispatched}
use roki_mb_daemon.Examples.{setup, handler, net, net-Healthy, provider, Connection as Wire}
use roki_mb_daemon.Examples.Sockets.{World, kernel, sleep}
use roki_mb_daemon.Examples.Links.{stream, stream-Healthy, conn_of, recv_byte-kept}

abbrev mock : Server (Unit {0}) Wire
mock = mock_server true net (λ e. str "error") true

abbrev mocked : Session (Unit {0}) Wire
mocked = record {
  handler = tt;
  provider = provider (packed ProcIds.get_status [] ++ []);
  do_shutdown = false;
}

asks_content : Asks mock net-Healthy ProcIds.get_status [] (λ r. has_content r ≡ true)
unfolding has_content
asks_content =
    let (n, short, dec, named_) = plain-Asks mock net-Healthy Plain.status in
    (n, short, (λ m h f. let (r, d, e) = dec m h f in (r, d, rw e refl)), named_)

mock_faults_example : (serve_round mock mocked).0 ≡ faulted
mock_faults_example =
    mock_faults true net (λ e. str "error") true net-Healthy ProcIds.get_status [] [] true mocked
      asks_content (record { full = refl; code = refl }) refl refl

-- A kernel on which clients connect.
abbrev busy : Kernel World
busy = record kernel {
  accept4 = λ fd b w. (inr (3 + length w.fds, 7), record w { fds = (3 + length w.fds) ∷ w.fds });
}

busy-Accounts : Accounts busy (λ w. w.fds)
unfolding obtained
busy-Accounts = record {
  socket_held = λ b w. refl;
  accept_held = λ fd b w. refl;
  bind_held = λ fd a p w. refl;
  listen_held = λ fd n w. refl;
  connect_held = λ fd a p w. refl;
  close_held = λ fd w. refl;
  close_none = λ w. refl;
}

abbrev chip_server : Server (Handler ℕ) World
chip_server = record {
  interface = handler_impl setup;
  char_signed = true;
  net = stream;
  strerror = λ e. str "error";
  null_reply_passes = false;
}

abbrev socket : ServerSocket
socket = record {
  sock_fd = wrap (some 5);
  server_addr = str "0.0.0.0";
  server_port = 8082;
  backlog = 1;
}

abbrev thread : Thread (Handler ℕ) World
thread = record {
  handler = handler running false [];
  world = record {
    fds = 5 ∷ 2 ∷ 1 ∷ [];
    inbox = packed ProcIds.get_status [] ++ packed 0 [];
    outbox = [];
  };
  do_shutdown = false;
  ready = false;
  joinables = 8 ∷ [];
}

routine-Settled_example :
    Settled busy conn_of
      (λ p. 9)
      chip_server
      (λ w. w.fds)
      busy-Accounts
      (λ d k w. recv_byte-kept k w.inbox w)
      (λ d bs w. refl)
      5
      (2 ∷ 1 ∷ [])
      (8 ∷ [])
      3
      (handler_routine busy conn_of (λ p. 9) chip_server 4 socket 3 thread)
routine-Settled_example =
    routine-Settled busy conn_of (λ p. 9) chip_server (λ w. w.fds) busy-Accounts
      (λ d k w. recv_byte-kept k w.inbox w) (λ d bs w. refl) 5 (2 ∷ 1 ∷ []) socket 3 refl 4 thread
      refl

abbrev connection : Connection
connection = record { fd = wrap (some 6); addr = str "1.2.3.4"; port = 8082; non_block = false }

abbrev at_work : Session (Handler ℕ) World
at_work = record {
  handler = handler running false [];
  provider = record {
    buffer = record { cells = λ p. 9; size = 256 };
    err_code = 0;
    network = record { fds = 6 ∷ 5 ∷ 2 ∷ 1 ∷ []; inbox = []; outbox = [] };
  };
  do_shutdown = true;
}

cancel_serving-Dismissed_example :
    Dismissed busy conn_of
      (λ p. 9)
      chip_server
      (λ w. w.fds)
      busy-Accounts
      (λ d k w. recv_byte-kept k w.inbox w)
      (λ d bs w. refl)
      5
      (2 ∷ 1 ∷ [])
      socket
      3
      refl
      (8 ∷ [])
      (farewell busy conn_of (λ p. 9) chip_server dispatching (wrap (some 6)) at_work).0
      (cancel_serving busy conn_of
        (λ p. 9)
        chip_server
        dispatching
        connection
        socket
        3
        at_work
        thread)
cancel_serving-Dismissed_example =
    cancel_serving-Dismissed busy conn_of (λ p. 9) chip_server (λ w. w.fds) busy-Accounts
      (λ d k w. recv_byte-kept k w.inbox w) (λ d bs w. refl) 5 (2 ∷ 1 ∷ []) socket 3 refl
      dispatching 6 connection at_work thread refl refl

busy_told_example :
    (u : Session (Handler ℕ) World) × (cancel_serving busy conn_of
        (λ p. 9)
        chip_server
        dispatching
        connection
        socket
        3
        at_work
        thread
      ≡ (
        unwound,
        hang_up busy conn_of
            (λ p. 9)
            chip_server
            connection
            socket
            3
            (resumed busy conn_of (λ p. 9) chip_server u thread),
      ))
    × (u.provider.network.outbox ≡ [] ++ (packed 0 closed ++ packed 0 closed))
    × (u.handler ≡ at_work.handler)
busy_told_example =
    busy_told busy conn_of (λ p. 9) chip_server connection socket 3 at_work thread stream-Healthy
      (record { full = refl; code = refl })

abbrev dispatcher : Dispatcher World
dispatcher = record {
  ports = record {
    current_port = 8080;
    world = record { fds = 2 ∷ 1 ∷ []; inbox = []; outbox = [] };
  };
  current_id = 0;
  started = [];
  registered = [];
}

abbrev start : World → Option ℕ × World
start w = (none, w)

busy_named : ip_to_string busy 0 ≡ ok (str "0.0.0.0")
unfolding ip_to_string address
busy_named = refl

dispatch_round-Dispatched_example :
    Dispatched busy sleep conn_of start
      (λ w. w.fds)
      busy-Accounts
      (λ d bs w. refl)
      (λ w. refl)
      (λ w. refl)
      (hello_of (accept busy socket false dispatcher.world).0)
      (λ w.
        destroy busy
          (hello_of (accept busy socket false dispatcher.world).0)
          (destroy busy (wrap none) w))
      (2 ∷ 1 ∷ [])
      dispatcher
      (dispatch_round busy sleep conn_of start 3 socket dispatcher)
dispatch_round-Dispatched_example =
    dispatch_round-Dispatched busy sleep conn_of start (λ w. w.fds) busy-Accounts (λ d bs w. refl)
      (λ w. refl) (λ w. refl) (str "0.0.0.0") busy_named 3 socket dispatcher
