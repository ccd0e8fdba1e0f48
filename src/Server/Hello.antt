-- ===== src/Server/Hello.antt =====
-- Src/Server.cpp: `HelloMessage`, the first message of the server, which tells the client the port of
-- its handler.
pub mod Ends
pub mod RoundTrip
use roki_mb_daemon.Base.{
  ℕ, zero, suc, ◌+◌, ◌-◌, ◌%◌, ◌/◌, ◌*◌, ◌^◌, List, [], ◌∷◌, ltb, if◌then◌else◌, runtime_error,
  errno_exception, Outcome, ok, throw, fault, hang, Exec, resume, then_do, str, length,
}
use roki_mb_daemon.Memory.{Memory, write_bytes, read_bytes}
use roki_mb_daemon.Streams.{
  RecvResult, received, recv_failed, SendResult, accepted, send_failed, Network,
}

-- The object, `port` being the memory of its two bytes, and the connection.
pub record Hello (N : Type 0) : Type 0 where
  pub port : Memory
  pub conn : N

-- The two bytes of a port, the low one first.
unfoldable pub le16 : ℕ → List ℕ
le16 p = p % 2 ^ 8 ∷ p / 2 ^ 8 % 2 ^ 8 ∷ []

unfoldable pub get_port : {N : Type 0} → Hello N → ℕ
get_port s = s.port.cells 0 + 2 ^ 8 * s.port.cells 1

-- The constructor.
unfoldable pub hello_message : {N : Type 0} → ℕ → N → Hello N
unfolding le16
hello_message p n = record {
  port = record { cells = λ q. if ltb q 1 then p % 2 ^ 8 else p / 2 ^ 8 % 2 ^ 8; size = 2 };
  conn = n;
}

module _ {N : Type 0} where
  -- What a round of `Recv` does with the result of `recv`.
  unfoldable pub take_part :
      (ℕ → Exec (Hello N) (Unit {0})) → ℕ → RecvResult → Exec (Hello N) (Unit {0})
  take_part again total (recv_failed e) s =
      (throw (errno_exception (str "Recv: Failed to recv()") e), s)
  take_part again total (received []) s =
      (throw (runtime_error (str "Recv: Server closed connection")), s)
  take_part again total (received (b ∷ bs)) s =
      resume (write_bytes s.port total (b ∷ bs))
        (λ m t. again (total + suc (length bs)) (record t { port = m })) s

  -- What a round of `Send` does with the result of `send`, with its `assert(ret != 0)`.
  unfoldable pub give_part :
      (ℕ → Exec (Hello N) (Unit {0})) → ℕ → SendResult → Exec (Hello N) (Unit {0})
  give_part again total (send_failed e) s =
      (throw (errno_exception (str "Send: Failed to send()") e), s)
  give_part again total (accepted zero) s = (fault, s)
  give_part again total (accepted (suc k)) s = again (total + suc k) s

  module _ (net : Network N) where
    unfoldable pub hello_recv_loop : ℕ → ℕ → ℕ → Exec (Hello N) (Unit {0})
    unfolding take_part
    hello_recv_loop zero total size s = if ltb total size then (hang, s) else (ok tt, s)
    hello_recv_loop (suc fuel) total size s =
        let (result, n) = net.recv (size - total) s.conn in
        let round =
          take_part (λ i. hello_recv_loop fuel i size) total result (record s { conn = n }) in
        if ltb total size then round else (ok tt, s)

    unfoldable pub hello_send_loop : ℕ → ℕ → ℕ → Exec (Hello N) (Unit {0})
    unfolding give_part
    hello_send_loop zero total size s = if ltb total size then (hang, s) else (ok tt, s)
    hello_send_loop (suc fuel) total size s =
        let round =
          then_do (λ t. (read_bytes t.port total (size - total), t))
            (λ bs t.
              let (result, n) = net.send bs t.conn in
              give_part (λ i. hello_send_loop fuel i size) total result (record t { conn = n }))
            s in
        if ltb total size then round else (ok tt, s)

    -- Each round moves a byte at least, so `sizeof(Port)` rounds are enough.
    unfoldable pub hello_send : Exec (Hello N) (Unit {0})
    unfolding hello_send_loop
    hello_send = hello_send_loop 2 0 2

    -- `Recv`, by its connection; `msg.Port` starts undetermined.
    finish_recv : Outcome (Unit {0}) × Hello N → Outcome ℕ × N
    unfolding get_port
    finish_recv (ok u, s) = (ok (get_port s), s.conn)
    finish_recv (throw e, s) = (throw e, s.conn)
    finish_recv (fault, s) = (fault, s.conn)
    finish_recv (hang, s) = (hang, s.conn)

    unfoldable pub hello_recv : (ℕ → ℕ) → Exec N ℕ
    unfolding finish_recv hello_recv_loop
    hello_recv garbage n =
        finish_recv
          (hello_recv_loop 2 0 2 (record { port = record { cells = garbage; size = 2 }; conn = n }))
