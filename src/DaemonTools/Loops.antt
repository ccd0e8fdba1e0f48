-- ===== src/DaemonTools/Loops.antt =====
-- Src/DaemonTools.cpp: the loops of `ReadToBuf` and `WriteFromBuf`, compared with those of Src/RPC.cpp.
use roki_mb_daemon.Base.{ℕ, zero, suc, ◌+◌, ◌-◌, ◌≡◌, [], ◌∷◌, ok, Exec, arith, length}
use roki_mb_daemon.Memory.{write, write_bytes, read, read_bytes}
use roki_mb_daemon.Streams.{
  Network, RecvResult, received, recv_failed, SendResult, accepted, send_failed,
}
use roki_mb_daemon.Rpc.{Provider, absorb, recv_loop, progress, send_loop}
use roki_mb_daemon.DaemonTools.{Tools, take_in, give_out, read_loop, write_loop}

-- A pipe and its buffer as those of a connection.
abbrev pub as_provider : {N : Type 0} → Tools N → Provider N
as_provider s = record { buffer = s.buffer; err_code = 0; network = s.pipe }

abbrev pub as_tools : {N : Type 0} → Provider N → Tools N
as_tools p = record { buffer = p.buffer; pipe = p.network }

module _ {N : Type 0} (net : Network N) where
  take_in-absorb :
      (again : ℕ → Exec (Tools N) (Unit {0})) (again' : ℕ → Exec (Provider N) (Unit {0}))
      (total : ℕ) (r : RecvResult) (s : Tools N) (p : Provider N)
      → ((i : ℕ) (t : Tools N)
          → again' i (as_provider t) ≡ (ok tt, p)
          → again i t ≡ (ok tt, as_tools p))
      → absorb again' total r (as_provider s) ≡ (ok tt, p)
      → take_in again total r s ≡ (ok tt, as_tools p)
  unfolding absorb take_in write_bytes
  take_in-absorb again again' total (recv_failed e) s p ih h = absurd (ground arith)
  take_in-absorb again again' total (received []) s p ih h = absurd (ground arith)
  take_in-absorb again again' total (received (b ∷ bs)) s p ih h = ground (
    arith,
    ih (total + suc (length bs))
        (record s { buffer = record s.buffer { cells = write s.buffer.cells total (b ∷ bs) } }),
  )

  pub read_loop-recv_loop :
      (fuel total size : ℕ) (s : Tools N) (p : Provider N)
      → recv_loop net fuel total size (as_provider s) ≡ (ok tt, p)
      → read_loop net fuel total size s ≡ (ok tt, as_tools p)
  unfolding recv_loop read_loop
  read_loop-recv_loop zero total size s p h = ground arith
  read_loop-recv_loop (suc fuel) total size s p h =
      let reading = net.recv (size - total) s.pipe in
      ground (
        arith,
        take_in-absorb (λ i. read_loop net fuel i size) (λ i. recv_loop net fuel i size) total
            reading.0 (record s { pipe = reading.1 }) p
            (λ i t. read_loop-recv_loop fuel i size t p),
      )

  give_out-progress :
      (again : ℕ → Exec (Tools N) (Unit {0})) (again' : ℕ → Exec (Provider N) (Unit {0}))
      (total : ℕ) (r : SendResult) (s : Tools N) (p : Provider N)
      → ((i : ℕ) (t : Tools N)
          → again' i (as_provider t) ≡ (ok tt, p)
          → again i t ≡ (ok tt, as_tools p))
      → progress again' total r (as_provider s) ≡ (ok tt, p)
      → give_out again total r s ≡ (ok tt, as_tools p)
  unfolding progress give_out
  give_out-progress again again' total (send_failed e) s p ih h = absurd (ground arith)
  give_out-progress again again' total (accepted zero) s p ih h = absurd (ground arith)
  give_out-progress again again' total (accepted (suc k)) s p ih h = ih (total + suc k) s h

  pub write_loop-send_loop :
      (fuel total size : ℕ) (s : Tools N) (p : Provider N)
      → send_loop net fuel total size (as_provider s) ≡ (ok tt, p)
      → write_loop net fuel total size s ≡ (ok tt, as_tools p)
  unfolding send_loop write_loop read_bytes
  write_loop-send_loop zero total size s p h = ground arith
  write_loop-send_loop (suc fuel) total size s p h =
      let sending = net.send (read s.buffer.cells total (size - total)) s.pipe in
      ground (
        arith,
        give_out-progress (λ i. write_loop net fuel i size) (λ i. send_loop net fuel i size) total
            sending.0 (record s { pipe = sending.1 }) p
            (λ i t. write_loop-send_loop fuel i size t p),
      )
