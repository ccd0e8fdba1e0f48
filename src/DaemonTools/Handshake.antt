-- ===== src/DaemonTools/Handshake.antt =====
-- Src/DaemonTools.cpp: what the parent reads from the pipe, and what the child writes to it.
use roki_mb_daemon.Base.{
  ℕ, suc, ◌+◌, ◌%◌, ◌≤◌, ◌<◌, ◌≡◌, refl, sym, ap, ◌∙◌, true, List, [], ◌∷◌, ◌++◌, ok, arith, length,
  length-append, ltb, All,
}
use roki_mb_daemon.Memory.{Memory, write, read}
use roki_mb_daemon.Memory.Laws.{c_string_lem, Holds, Holds-write, Holds-head, write-append}
use roki_mb_daemon.Streams.{Network, Healthy}
use roki_mb_daemon.RpcDefs.Encoding.{write_bytes_lem}
use roki_mb_daemon.RpcDefs.RoundTrip.{read_bytes_lem}
use roki_mb_daemon.Rpc.Receive.{recv_loop_lem}
use roki_mb_daemon.Rpc.SendLoop.{send_loop_lem}
use roki_mb_daemon.DaemonTools.{
  buffer_size, ack, no_ack, Tools, launched, refused, read_loop, write_loop, put_error,
  read_message, read_result,
}
use roki_mb_daemon.DaemonTools.Loops.{as_provider, read_loop-recv_loop, write_loop-send_loop}

-- What the child sends where the launch fails.
abbrev pub report : List ℕ → List ℕ
report msg = no_ack ∷ length msg ∷ msg

module _ {N : Type 0} (net : Network N) (healthy : Healthy net) (fuel : ℕ) where
  open healthy use {pending, sent}

  -- `ReadToBuf` leaves these bytes at the start of the buffer.
  abbrev after_read : Tools N → List ℕ → N → Tools N
  after_read s bs n = record {
    buffer = record s.buffer { cells = write s.buffer.cells 0 bs };
    pipe = n;
  }

  read_loop_lem :
      (bs rest : List ℕ) (s : Tools N)
      → length bs ≤ fuel
      → length bs ≤ s.buffer.size
      → pending s.pipe ≡ bs ++ rest
      → (n : N) × (read_loop net fuel 0 (length bs) s ≡ (ok tt, after_read s bs n))
        × (pending n ≡ rest)
  read_loop_lem bs rest s enough fits p =
      let (n, ran, left, quiet) =
        recv_loop_lem net healthy fuel 0 (length bs) bs rest (as_provider s) enough (omega arith)
          fits p in
      (n, read_loop-recv_loop net fuel 0 (length bs) s _ ran, left)

  write_loop_lem :
      (bs : List ℕ) (s : Tools N)
      → length bs ≤ fuel
      → length bs ≤ s.buffer.size
      → Holds s.buffer.cells 0 bs
      → (n : N) × (write_loop net fuel 0 (length bs) s ≡ (ok tt, record s { pipe = n }))
        × (sent n ≡ sent s.pipe ++ bs)
  write_loop_lem bs s enough fits held =
      let (n, ran, order, quiet) =
        send_loop_lem net healthy fuel 0 (length bs) bs (as_provider s) enough (omega arith) fits
          held in
      (n, write_loop-send_loop net fuel 0 (length bs) s _ ran, order)

  -- On a healthy pipe, with a round for each byte, `PutError` writes the report of a message of at most
  -- 255 bytes.
  pub put_error_lem :
      (msg : List ℕ) (s : Tools N)
      → length msg ≤ 255
      → length msg + 2 ≤ fuel
      → s.buffer.size ≡ buffer_size + 3
      → (t : Tools N) × (put_error net fuel msg s ≡ (ok tt, t))
        × (sent t.pipe ≡ sent s.pipe ++ report msg)
  unfolding put_error write
  put_error_lem msg s small enough full =
      let head : List ℕ = no_ack ∷ length msg ∷ [] in
      let m : Memory = record s.buffer { cells = write s.buffer.cells 0 head } in
      let t : Tools N = record s {
        buffer = record s.buffer { cells = write s.buffer.cells 0 (report msg) };
      } in
      let (n, ran, order) =
        write_loop_lem (report msg) t (omega arith) (omega arith)
          (Holds-write s.buffer.cells 0 (report msg)) in
      let test : ltb (length msg) buffer_size ≡ true = ground arith in
      let byte : length msg % 256 ≡ length msg = omega arith in
      let count : length msg + 2 ≡ suc (suc (length msg)) = omega arith in
      (
        record t { pipe = n },
        rw
            (
              test,
              byte,
              write_bytes_lem s.buffer 0 head (omega arith),
              write_bytes_lem m 2 msg (omega arith),
              count,
            )
            ran,
        order,
      )

  read_message_lem :
      (msg rest : List ℕ) (s : Tools N)
      → All (λ b. 0 < b) msg
      → length msg ≤ 255
      → length msg ≤ fuel
      → s.buffer.size ≡ buffer_size + 3
      → pending s.pipe ≡ msg ++ rest
      → (t : Tools N) × (read_message net fuel (length msg) s ≡ (ok (refused msg), t))
        × (pending t.pipe ≡ rest)
  unfolding read_message
  read_message_lem msg rest s text small enough full p =
      let (n, ran, left) = read_loop_lem msg rest s enough (omega arith) p in
      let m : Memory = record s.buffer { cells = write s.buffer.cells 0 msg } in
      let ended : List ℕ = msg ++ (0 ∷ []) in
      let m' : Memory = record s.buffer { cells = write s.buffer.cells 0 ended } in
      let count : length ended ≡ length msg + 1 = length-append msg (0 ∷ []) in
      let start : length msg ≡ 0 + length msg = omega arith in
      let joined : write m.cells (length msg) (0 ∷ []) ≡ m'.cells =
        ap (λ i. write m.cells i (0 ∷ [])) start ∙ write-append s.buffer.cells 0 msg (0 ∷ []) in
      let held : read m'.cells 0 (length msg + 1) ≡ ended =
        ap (λ k. read m'.cells 0 k) (sym count) ∙ (Holds-write s.buffer.cells 0 ended).at in
      (
        record { buffer = m'; pipe = n },
        rw
            (
              ran,
              write_bytes_lem m (length msg) (0 ∷ []) (omega arith),
              joined,
              read_bytes_lem m' 0 (length msg + 1) (omega arith),
              held,
              c_string_lem msg [] text,
            )
            refl,
        left,
      )

  -- On a healthy pipe, with a round for each byte, the parent reads the message of the report, where it
  -- has at most 255 bytes and none of them is zero, and nothing behind it.
  pub read_result-report :
      (msg rest : List ℕ) (s : Tools N)
      → All (λ b. 0 < b) msg
      → length msg ≤ 255
      → length msg < fuel
      → s.buffer.size ≡ buffer_size + 3
      → pending s.pipe ≡ report msg ++ rest
      → (t : Tools N) × (read_result net fuel s ≡ (ok (refused msg), t)) × (pending t.pipe ≡ rest)
  unfolding read_result
  read_result-report msg rest s text small enough full p =
      let (n, ran, left) =
        read_loop_lem (no_ack ∷ []) (length msg ∷ (msg ++ rest)) s (omega arith) (omega arith) p in
      let s₁ : Tools N = after_read s (no_ack ∷ []) n in
      let first : s₁.buffer.cells 0 ≡ no_ack =
        Holds-head s₁.buffer.cells 0 no_ack [] (Holds-write s.buffer.cells 0 (no_ack ∷ [])) in
      let (n', ran', left') =
        read_loop_lem (length msg ∷ []) (msg ++ rest) s₁ (omega arith) (omega arith) left in
      let s₂ : Tools N = after_read s₁ (length msg ∷ []) n' in
      let second : s₂.buffer.cells 0 ≡ length msg =
        Holds-head s₂.buffer.cells 0 (length msg) []
          (Holds-write s₁.buffer.cells 0 (length msg ∷ [])) in
      let (t, done, left'') = read_message_lem msg rest s₂ text small (omega arith) full left' in
      let sized : read_message net fuel (s₂.buffer.cells 0) s₂ ≡ (ok (refused msg), t) =
        ap (λ k. read_message net fuel k s₂) second ∙ done in
      (t, rw (ran, first, ran') sized, left'')

  -- On a healthy pipe the parent takes the byte `ACK` for a daemon that has been launched.
  pub read_result-ack :
      (rest : List ℕ) (s : Tools N)
      → 0 < fuel
      → s.buffer.size ≡ buffer_size + 3
      → pending s.pipe ≡ ack ∷ rest
      → (t : Tools N) × (read_result net fuel s ≡ (ok launched, t)) × (pending t.pipe ≡ rest)
  unfolding read_result
  read_result-ack rest s enough full p =
      let (n, ran, left) = read_loop_lem (ack ∷ []) rest s (omega arith) (omega arith) p in
      let t : Tools N = after_read s (ack ∷ []) n in
      let first : t.buffer.cells 0 ≡ ack =
        Holds-head t.buffer.cells 0 ack [] (Holds-write s.buffer.cells 0 (ack ∷ [])) in
      (t, rw (ran, first) refl, left)
