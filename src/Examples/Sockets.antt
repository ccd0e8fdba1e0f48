-- ===== src/Examples/Sockets.antt =====
-- Sockets on a small kernel, and what is built on them, on concrete inputs.
use roki_mb_daemon.Base.{
  ℕ, ◌+◌, ◌≡◌, refl, inl, inr, List, [], ◌∷◌, Option, none, some, ◌==◌, if◌then◌else◌, ok, throw,
  errno_exception, str, arith, length,
}
use roki_mb_daemon.Sockets.{
  Kernel, wrap, ServerSocket, htons, server_socket, ip_to_string, address, unwind, move_assign,
  destroy,
}
use roki_mb_daemon.Sockets.Descriptors.{Accounts, release, obtained}
use roki_mb_daemon.Server.Ports.{
  create_handler_socket, handler_socket, create-first, create-Found, Found,
}
use roki_mb_daemon.Server.Hello.{le16}

-- The open descriptors, and the bytes that arrive on every connection.
pub record World : Type 0 where
  pub fds : List ℕ
  pub inbox : List ℕ
  pub outbox : List ℕ

abbrev pub world : World
world = record { fds = 2 ∷ 1 ∷ []; inbox = le16 8082; outbox = [] }

abbrev pub close_fd : Option ℕ → World → World
close_fd none w = w
close_fd (some fd) w = record w { fds = release fd w.fds }

-- The port 8081 is taken.
abbrev pub kernel : Kernel World
kernel = record {
  socket = λ b w. (inr (3 + length w.fds), record w { fds = (3 + length w.fds) ∷ w.fds });
  bind = λ fd a p w. (if p == htons 8081 then some 98 else none, w);
  listen = λ fd n w. (none, w);
  connect = λ fd a p w. (none, w);
  accept4 = λ fd b w. (inl 11, w);
  set_linger = λ fd w. (none, w);
  close = close_fd;
  inet_ntop = λ a. inr (str "0.0.0.0");
}

pub kernel-Accounts : Accounts kernel (λ w. w.fds)
unfolding obtained
kernel-Accounts = record {
  socket_held = λ b w. refl;
  accept_held = λ fd b w. refl;
  bind_held = λ fd a p w. refl;
  listen_held = λ fd n w. refl;
  connect_held = λ fd a p w. refl;
  close_held = λ fd w. refl;
  close_none = λ w. refl;
}

pub named : ip_to_string kernel 0 ≡ ok (str "0.0.0.0")
unfolding ip_to_string address
named = refl

abbrev pub sleep : World → World
sleep w = w

abbrev socket_8082 : ServerSocket
socket_8082 = record {
  sock_fd = wrap (some 5);
  server_addr = str "0.0.0.0";
  server_port = 8082;
  backlog = 1;
}

abbrev pub with_socket : World
with_socket = record world { fds = 5 ∷ 2 ∷ 1 ∷ [] }

taken :
    handler_socket kernel sleep 8081 world
    ≡ (throw (errno_exception (str "ServerSocket: Failed to bind socket") 98), world)
unfolding server_socket htons release ip_to_string address unwind destroy
taken = refl

free : handler_socket kernel sleep 8082 world ≡ (ok socket_8082, with_socket)
unfolding server_socket htons ip_to_string address unwind destroy move_assign
free = refl

create-first_example :
    create_handler_socket kernel sleep 2 (record { current_port = 8080; world = world })
    ≡ (ok socket_8082, record { current_port = 8082; world = with_socket })
create-first_example =
    create-first kernel sleep 2 1 8080 world world with_socket socket_8082
      (errno_exception (str "ServerSocket: Failed to bind socket") 98, world, taken, refl) free
      (omega arith) (omega arith)

create-Found_example :
    Found kernel sleep
      (λ w. w.fds)
      kernel-Accounts
      (2 ∷ 1 ∷ [])
      (create_handler_socket kernel sleep 7 (record { current_port = 8080; world = world }))
create-Found_example =
    create-Found kernel sleep (λ w. w.fds) kernel-Accounts (str "0.0.0.0") 7
      (record { current_port = 8080; world = world }) named (λ w. refl)
