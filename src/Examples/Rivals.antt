-- ===== src/Examples/Rivals.antt =====
-- Two clients and the daemon on one concrete link.
use roki_mb_daemon.Base.{
  ℕ, ◌≡◌, refl, ap, false, true, List, [], ok, throw, runtime_error, arith, length, str,
  to_string_int,
}
use roki_mb_daemon.Memory.{le32}
use roki_mb_daemon.Streams.{Network, Healthy}
use roki_mb_daemon.RpcDefs.ProcIds
use roki_mb_daemon.RpcDefs.{ByteString, ChipStatus}
use roki_mb_daemon.RpcDefs.Encoding.{User, text_bytes, user_bytes}
use roki_mb_daemon.RpcDefs.RoundTrip.{Carries, CarriesStatus}
use roki_mb_daemon.Rpc.{Provider}
use roki_mb_daemon.Rpc.Send.{packed}
use roki_mb_daemon.Firmware.{running}
use roki_mb_daemon.Handler.{Handler, acquired_message, clear_port}
use roki_mb_daemon.Handler.Holder.{connected}
use roki_mb_daemon.Server.{Session}
use roki_mb_daemon.Server.Answers.{status_of}
use roki_mb_daemon.Client.{proc_message}
use roki_mb_daemon.Exchange.{Link}
use roki_mb_daemon.Exchange.Clients.{
  Quiet, StatusReturns, ConnectReturns, IsUser, IsFree, status_told,
}
use roki_mb_daemon.Server.Hello.{hello_message, hello_send, hello_recv}
use roki_mb_daemon.Exchange.Hello.{hello_send-hello_recv}
use roki_mb_daemon.Server.Answers.{refusal}
use roki_mb_daemon.Exchange.Rivals.{sharing, DisconnectReturns, taken, second_told, second_locks}
use roki_mb_daemon.Examples.{
  Connection, net, net-Healthy, daemon, device, setup, handler, provider, session,
}

-- The other end of the connection that the daemon has.
abbrev flip : Connection → Connection
flip c = record { inbox = c.outbox; outbox = c.inbox }

abbrev near : Network Connection
near = record {
  recv = λ k c. let (r, c') = net.recv k (flip c) in (r, flip c');
  send = λ bs c. let (r, c') = net.send bs (flip c) in (r, flip c');
}

abbrev near-Healthy : Healthy near
near-Healthy = record {
  pending = λ c. c.outbox;
  sent = λ c. c.inbox;
  recv_prefix = λ k c h h'.
      let (bs, c', got, more, few, order, quiet) = net-Healthy.recv_prefix k (flip c) h h' in
      (bs, flip c', ap (λ x. (x.0, flip x.1)) got, more, few, order, quiet);
  send_prefix = λ bs c h.
      let (k, c', went, more, few, order, quiet) = net-Healthy.send_prefix bs (flip c) h in
      (k, flip c', ap (λ x. (x.0, flip x.1)) went, more, few, order, quiet);
}

abbrev link : Link near net
link = record { near_end = near-Healthy; far_end = net-Healthy; up = λ c. refl; down = λ c. refl }

abbrev ann : User
ann = record { user_name = str "ann"; user_pid = 42 }

abbrev bob : User
bob = record { user_name = str "bob"; user_pid = 43 }

length-user : length (user_bytes ann) ≡ 8
unfolding user_bytes text_bytes str le32
length-user = refl

length-user' : length (user_bytes bob) ≡ 8
unfolding user_bytes text_bytes str le32
length-user' = refl

abbrev free : Handler ℕ
free = handler running false []

cleared : (clear_port device 4 free.mb_port 0).0 ≡ ok tt
unfolding clear_port
cleared = refl

cleared_again : (clear_port device 4 free.mb_port (clear_port device 4 free.mb_port 0).1).0 ≡ ok tt
unfolding clear_port
cleared_again = refl

length-mb_port : length free.mb_port ≡ 12
unfolding str
length-mb_port = refl

abbrev quiet : (h : Handler ℕ) → Quiet daemon near link [] (provider []) (session h [])
quiet h = record {
  client = (refl, refl);
  ready = record { full = refl; code = refl };
  asked = refl;
  left = refl;
}

is_free : IsFree daemon near link free
is_free = (refl, refl, cleared, omega (arith, length-mb_port))

is_ann : IsUser daemon near link ann
is_ann = (omega (arith, length-user), omega arith)

is_bob : IsUser daemon near link bob
is_bob = (omega (arith, length-user'), omega arith)

abbrev held : Handler ℕ
held =
    taken daemon near link ann bob is_ann is_bob (provider []) (provider []) (session free [])
      (session free []) (quiet free) (quiet free) is_free

abbrev holder_named : List ℕ
holder_named = refusal held

length-holder_named : length holder_named ≡ 51
unfolding acquired_message str to_string_int
length-holder_named = refl

-- The name has no zero byte, and the message is told whole.
holder_named-whole : holder_named ≡ acquired_message (str "Connect") held
unfolding acquired_message str to_string_int
holder_named-whole = refl

abbrev given_back : Handler ℕ
given_back = record held { acquired = false }

abbrev refused : List ℕ
refused = proc_message (str "Connect") holder_named

second_locks_example :
    (a' a'' b' b'' : Provider Connection) × (s' s'' r' r'' : Session (Handler ℕ) Connection)
    × (p : ByteString) × ConnectReturns daemon near link ann
        (provider [])
        (session free [])
        (ok p)
        a'
        s'
        held
        []
    × ConnectReturns daemon near link bob
        (provider [])
        (sharing held (session free []))
        (throw (runtime_error refused))
        b'
        r'
        held
        (packed 0 holder_named)
    × DisconnectReturns daemon near link a' s' (ok tt) a'' s'' given_back []
    × ConnectReturns daemon near link bob b'
        (sharing given_back r')
        (throw (runtime_error refused))
        b''
        r''
        (connected setup (str "bob") 43 given_back)
        (packed ProcIds.connect (text_bytes given_back.mb_port))
second_locks_example =
    second_locks daemon near link ann bob is_ann is_bob (provider []) (provider [])
      (session free []) (session free []) (quiet free) (quiet free) is_free
      (omega (arith, length-holder_named))
      (refl, refl, cleared_again, omega (arith, length-mb_port))

second_told_example :
    (a' b' : Provider Connection) × (s' r' : Session (Handler ℕ) Connection) × (p : ByteString)
    × ConnectReturns daemon near link ann (provider []) (session free []) (ok p) a' s' held []
    × Carries true p free.mb_port
    × ConnectReturns daemon near link bob
        (provider [])
        (sharing held (session free []))
        (throw (runtime_error refused))
        b'
        r'
        held
        (packed 0 holder_named)
second_told_example =
    second_told daemon near link ann bob is_ann is_bob (provider []) (provider []) (session free [])
      (session free []) (quiet free) (quiet free) is_free (omega (arith, length-holder_named))

length-text : length (str "bob") ≡ 3
unfolding str
length-text = refl

abbrev asked : Handler ℕ
asked = handler running true (str "bob")

status_told_example :
    (c' : Provider Connection) × (t : Session (Handler ℕ) Connection) × (d : ChipStatus)
    × StatusReturns daemon near link (provider []) (session asked []) (ok d) c' t asked []
    × CarriesStatus true d (status_of asked)
status_told_example =
    status_told daemon near link (provider []) (session asked []) (quiet asked)
      (omega (arith, length-text), omega arith)

hello_send-hello_recv_example :
    (n' n'' : Connection) × ((hello_send net (hello_message 8082 (provider []).network)).0 ≡ ok tt)
    × ((hello_send net (hello_message 8082 (provider []).network)).1.conn ≡ n')
    × (hello_recv near (λ p. 9) n' ≡ (ok 8082, n''))
    × (n''.outbox ≡ [])
hello_send-hello_recv_example =
    hello_send-hello_recv near net link 8082 (λ p. 9) (provider []).network (omega arith) refl
