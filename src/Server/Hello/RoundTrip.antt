-- ===== src/Server/Hello/RoundTrip.antt =====
-- Src/Server.cpp: `HelloMessage::Send` and `Recv`, through the loops of Src/RPC.cpp.
use roki_mb_daemon.Base.{
  ℕ, zero, suc, ◌+◌, ◌-◌, ◌^◌, ◌<◌, ◌≡◌, refl, ◌∙◌, ap, List, [], ◌∷◌, ◌++◌, ok, Exec, arith,
  length,
}
use roki_mb_daemon.Memory.{write, store, write_bytes, read, read_bytes}
use roki_mb_daemon.Streams.{
  Network, Healthy, RecvResult, received, recv_failed, SendResult, accepted, send_failed,
}
use roki_mb_daemon.Rpc.{Provider, absorb, recv_loop, progress, send_loop}
use roki_mb_daemon.Rpc.Receive.{recv_loop_lem}
use roki_mb_daemon.Rpc.SendLoop.{send_loop_lem}
use roki_mb_daemon.Server.Hello.{
  Hello, le16, get_port, hello_message, take_part, give_part, hello_recv_loop, hello_send_loop,
  hello_send, finish_recv, hello_recv,
}

-- A message as the package buffer of a connection.
abbrev as_provider : {N : Type 0} → Hello N → Provider N
as_provider s = record { buffer = s.port; err_code = 0; network = s.conn }

abbrev as_hello : {N : Type 0} → Provider N → Hello N
as_hello p = record { port = p.buffer; conn = p.network }

get_port-le16 :
    {N : Type 0} (p : ℕ) (garbage : ℕ → ℕ) (n : N)
    → p < 2 ^ 16
    → get_port (record { port = record { cells = write garbage 0 (le16 p); size = 2 }; conn = n })
      ≡ p
unfolding get_port write store le16
get_port-le16 p garbage n h = omega arith

module _ {N : Type 0} (net : Network N) where
  take_part-absorb :
      (again : ℕ → Exec (Hello N) (Unit {0})) (again' : ℕ → Exec (Provider N) (Unit {0}))
      (total : ℕ) (r : RecvResult) (s : Hello N) (p : Provider N)
      → ((i : ℕ) (t : Hello N)
          → again' i (as_provider t) ≡ (ok tt, p)
          → again i t ≡ (ok tt, as_hello p))
      → absorb again' total r (as_provider s) ≡ (ok tt, p)
      → take_part again total r s ≡ (ok tt, as_hello p)
  unfolding absorb take_part write_bytes
  take_part-absorb again again' total (recv_failed e) s p ih h = absurd (ground arith)
  take_part-absorb again again' total (received []) s p ih h = absurd (ground arith)
  take_part-absorb again again' total (received (b ∷ bs)) s p ih h = ground (
    arith,
    ih (total + suc (length bs))
        (record s { port = record s.port { cells = write s.port.cells total (b ∷ bs) } }),
  )

  recv-recv_loop :
      (fuel total size : ℕ) (s : Hello N) (p : Provider N)
      → recv_loop net fuel total size (as_provider s) ≡ (ok tt, p)
      → hello_recv_loop net fuel total size s ≡ (ok tt, as_hello p)
  unfolding recv_loop hello_recv_loop
  recv-recv_loop zero total size s p h = ground arith
  recv-recv_loop (suc fuel) total size s p h =
      let receiving = net.recv (size - total) s.conn in
      ground (
        arith,
        take_part-absorb (λ i. hello_recv_loop net fuel i size) (λ i. recv_loop net fuel i size)
            total receiving.0 (record s { conn = receiving.1 }) p
            (λ i t. recv-recv_loop fuel i size t p),
      )

  give_part-progress :
      (again : ℕ → Exec (Hello N) (Unit {0})) (again' : ℕ → Exec (Provider N) (Unit {0}))
      (total : ℕ) (r : SendResult) (s : Hello N) (p : Provider N)
      → ((i : ℕ) (t : Hello N)
          → again' i (as_provider t) ≡ (ok tt, p)
          → again i t ≡ (ok tt, as_hello p))
      → progress again' total r (as_provider s) ≡ (ok tt, p)
      → give_part again total r s ≡ (ok tt, as_hello p)
  unfolding progress give_part
  give_part-progress again again' total (send_failed e) s p ih h = absurd (ground arith)
  give_part-progress again again' total (accepted zero) s p ih h = absurd (ground arith)
  give_part-progress again again' total (accepted (suc k)) s p ih h = ih (total + suc k) s h

  send-send_loop :
      (fuel total size : ℕ) (s : Hello N) (p : Provider N)
      → send_loop net fuel total size (as_provider s) ≡ (ok tt, p)
      → hello_send_loop net fuel total size s ≡ (ok tt, as_hello p)
  unfolding send_loop hello_send_loop read_bytes
  send-send_loop zero total size s p h = ground arith
  send-send_loop (suc fuel) total size s p h =
      let sending = net.send (read s.port.cells total (size - total)) s.conn in
      ground (
        arith,
        give_part-progress (λ i. hello_send_loop net fuel i size) (λ i. send_loop net fuel i size)
            total sending.0 (record s { conn = sending.1 }) p
            (λ i t. send-send_loop fuel i size t p),
      )

  module _ (healthy : Healthy net) where
    open healthy use {pending, sent}

    -- On a healthy connection `Send` returns and adds the two bytes of the port, the low one first.
    pub hello_send_lem :
        (p : ℕ) (n : N)
        → (n' : N) × (hello_send net (hello_message p n)
            ≡ (ok tt, record (hello_message p n) { conn = n' }))
          × (sent n' ≡ sent n ++ le16 p)
    unfolding hello_send hello_message le16
    hello_send_lem p n =
        let (n', ran, order, quiet) =
          send_loop_lem net healthy 2 0 2 (le16 p) (as_provider (hello_message p n)) (omega arith)
            (omega arith) (omega arith) (record { at = unfold read in refl }) in
        (n', send-send_loop 2 0 2 (hello_message p n) _ ran, order)

    -- `Recv` on a connection where the two bytes of a port have arrived, with others behind them,
    -- gives that port and takes no byte more.
    pub hello_round_trip :
        (p : ℕ) (rest : List ℕ) (garbage : ℕ → ℕ) (n : N)
        → p < 2 ^ 16
        → pending n ≡ le16 p ++ rest
        → (n' : N) × (hello_recv net garbage n ≡ (ok p, n')) × (pending n' ≡ rest)
    unfolding hello_recv le16
    hello_round_trip p rest garbage n small arrived =
        let s : Hello N = record { port = record { cells = garbage; size = 2 }; conn = n } in
        let (n', ran, left, quiet) =
          recv_loop_lem net healthy 2 0 2 (le16 p) rest (as_provider s) (omega arith) (omega arith)
            (omega arith) arrived in
        (
          n',
          ap (finish_recv net) (recv-recv_loop 2 0 2 s _ ran)
              ∙ ap (λ q. (ok q, n')) (get_port-le16 p garbage n' small),
          left,
        )
