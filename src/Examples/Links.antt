-- ===== src/Examples/Links.antt =====
-- Streams on the small kernel, and clients that connect over them, on concrete inputs.
use roki_mb_daemon.Base.{
  ℕ, zero, suc, ◌≤◌, ◌<◌, ◌≡◌, refl, false, List, [], ◌∷◌, ◌++◌, some, ok, str, arith, length, ap,
  sym, take-length,
}
use mathlib.Core.List.{append-nil}
use roki_mb_daemon.Streams.{Network, Healthy, RecvResult, received, accepted}
use roki_mb_daemon.Sockets.{
  DescriptorWrapper, wrap, Connection, ClientSocket, htons, connect_socket, unwind, move, destroy,
}
use roki_mb_daemon.Server.Hello.{le16}
use roki_mb_daemon.Client.Factory.{Factory, factory_connect, leave_scope}
use roki_mb_daemon.Client.Connects.{factory_connects}
use roki_mb_daemon.DaemonTools.Session.{Environment, get_params, get_env, Machine}
use roki_mb_daemon.Examples.Sockets.{World, world, with_socket, kernel, named}

abbrev pub recv_byte : ℕ → List ℕ → World → RecvResult × World
recv_byte k [] w = (received [], w)
recv_byte zero (b ∷ bs) w = (received [], w)
recv_byte (suc k) (b ∷ bs) w = (received (b ∷ []), record w { inbox = bs })

abbrev pub stream : Network World
stream = record {
  recv = λ k w. recv_byte k w.inbox w;
  send = λ bs w. (accepted (length bs), record w { outbox = w.outbox ++ bs });
}

pub recv_byte-kept : (k : ℕ) (bs : List ℕ) (w : World) → (recv_byte k bs w).1.fds ≡ w.fds
recv_byte-kept k [] w = refl
recv_byte-kept zero (b ∷ bs) w = refl
recv_byte-kept (suc k) (b ∷ bs) w = refl

pub recv_byte-bounded :
    (k : ℕ) (bs cs : List ℕ) (w : World) → (recv_byte k bs w).0 ≡ received cs → length cs ≤ k
recv_byte-bounded k [] cs w e = ground arith
recv_byte-bounded zero (b ∷ bs) cs w e = ground arith
recv_byte-bounded (suc k) (b ∷ bs) cs w e = ground arith

pub recv_byte_lem :
    (inbox : List ℕ) (k : ℕ) (w : World)
    → 0 < k
    → 0 < length inbox
    → (bs : List ℕ) × (w' : World) × (recv_byte k inbox w ≡ (received bs, w'))
      × (0 < length bs)
      × (length bs ≤ k)
      × (inbox ≡ bs ++ w'.inbox)
      × (w'.outbox ≡ w.outbox)
recv_byte_lem [] k w h h' = absurd (omega arith)
recv_byte_lem (b ∷ bs) zero w h h' = absurd (omega arith)
recv_byte_lem (b ∷ bs) (suc k) w h h' =
    (b ∷ [], record w { inbox = bs }, refl, omega arith, omega arith, refl, refl)

abbrev pub stream-Healthy : Healthy stream
stream-Healthy = record {
  pending = λ w. w.inbox;
  sent = λ w. w.outbox;
  recv_prefix = λ k w h h'. recv_byte_lem w.inbox k w h h';
  send_prefix = λ bs w h. (
    length bs,
    record w { outbox = w.outbox ++ bs },
    refl,
    h,
    omega arith,
    ap (λ xs. w.outbox ++ xs) (sym (take-length bs)),
    refl,
  );
}

-- A client asks the daemon on the port 8080.
abbrev pub conn_of : DescriptorWrapper → Network World
conn_of d = stream

abbrev daemon_socket : ClientSocket
daemon_socket = record { server_addr = str "0.0.0.0"; addr_in = 0; port_in = htons 8080 }

abbrev asking : Factory
asking = record { socket = daemon_socket; in_addr = 0 }

abbrev first_conn : Connection
first_conn = record {
  fd = wrap (some 5);
  addr = str "0.0.0.0";
  port = htons 8080;
  non_block = false;
}

opens : connect_socket kernel daemon_socket false world ≡ (ok first_conn, with_socket)
unfolding connect_socket unwind move destroy
opens = refl

factory_connects_example :
    (n : World) × (n.inbox ≡ [])
    × (factory_connect kernel conn_of (λ p. 9) asking world
        ≡ leave_scope kernel conn_of (wrap (some 5)) (
            connect_socket kernel
              (record { server_addr = str "0.0.0.0"; addr_in = 0; port_in = htons 8082 })
              false
              n))
factory_connects_example =
    factory_connects kernel conn_of (λ p. 9) asking first_conn world with_socket 8082 []
      (str "0.0.0.0") stream-Healthy opens (omega arith) (sym (append-nil (le16 8082))) named

abbrev pub environment : Environment
environment = record {
  getenv = λ name. some name;
  stoul = λ text. ok 8081;
  port_env = str "PORT";
  backlog_env = str "BACKLOG";
  logfile_env = str "LOG";
  attempt_count_env = str "COUNT";
  attempt_period_env = str "PERIOD";
}

abbrev pub machine : Machine World
machine = record {
  kernel = kernel;
  conn_of = conn_of;
  usleep = λ n w. w;
  garbage = λ p. 9;
  env = environment;
}

pub set :
    get_params environment
    ≡ ok (record {
      port = 8081;
      backlog = 8081;
      log_path = str "LOG";
      conn_attempt_count = 8081;
      conn_attempt_period = 8081;
    })
unfolding get_params get_env
set = refl
