-- ===== src/DaemonTools.antt =====
-- Src/DaemonTools.cpp: the handshake over a pipe between a launched daemon and its parent, and the
-- attempts of a client to connect. `read` and `write` are a parameter, and so are the sockets.
pub mod Loops
pub mod Session
pub mod Launch
pub mod Handshake
pub mod Attempts
use roki_mb_daemon.Base.{
  ℕ, zero, suc, ◌+◌, ◌-◌, ◌%◌, Bool, true, false, List, [], ◌∷◌, ltb, leb, ◌==◌, if◌then◌else◌,
  Exception, runtime_error, errno_exception, Outcome, ok, throw, fault, hang, Exec, then_do, str,
  length,
}
use roki_mb_daemon.Memory.{c_string, Memory, store, write_bytes, read_bytes}
use roki_mb_daemon.Streams.{
  RecvResult, received, recv_failed, SendResult, accepted, send_failed, Network,
}

abbrev pub buffer_size : ℕ
buffer_size = 256

-- `ACK`, and `~ACK` as a `char`.
abbrev pub ack : ℕ
ack = b'y'

abbrev pub no_ack : ℕ
no_ack = 255 - b'y'

-- The buffer of `buffer_size + 3` bytes, and the pipe.
pub record Tools (N : Type 0) : Type 0 where
  pub buffer : Memory
  pub pipe : N

-- `LaunchResult`; its `Pid` is set by the caller.
pub data LaunchResult : Type 0 where
  launched : LaunchResult
  refused : List ℕ → LaunchResult

-- A step that writes to the buffer.
abbrev pub on_memory :
    {N A : Type 0} → Outcome Memory → (Memory → Exec (Tools N) A) → Exec (Tools N) A
on_memory (ok m) k s = k m s
on_memory (throw e) k s = (throw e, s)
on_memory fault k s = (fault, s)
on_memory hang k s = (hang, s)

abbrev pub giving : {N A : Type 0} → Outcome A → Exec (Tools N) A
giving r s = (r, s)

-- What a round of `ReadToBuf` does with the result of `read`: the end of the file is no news.
pub take_in :
    {N : Type 0} → (ℕ → Exec (Tools N) (Unit {0})) → ℕ → RecvResult → Exec (Tools N) (Unit {0})
take_in again total (recv_failed e) s = (throw (errno_exception (str "ReadToBuf: read()") e), s)
take_in again total (received bs) s =
    on_memory (write_bytes s.buffer total bs)
      (λ m t. again (total + length bs) (record t { buffer = m })) s

-- What a round of `WriteFromBuf` does with the result of `write`.
pub give_out :
    {N : Type 0} → (ℕ → Exec (Tools N) (Unit {0})) → ℕ → SendResult → Exec (Tools N) (Unit {0})
give_out again total (send_failed e) s =
    (throw (errno_exception (str "WriteFromBuf: write()") e), s)
give_out again total (accepted k) s = again (total + k) s

module _ {N : Type 0} (net : Network N) where
  -- The loop of `ReadToBuf`, for at most `fuel` rounds.
  unfoldable pub read_loop : ℕ → ℕ → ℕ → Exec (Tools N) (Unit {0})
  unfolding take_in
  read_loop zero total size s = if ltb total size then (hang, s) else (ok tt, s)
  read_loop (suc fuel) total size s =
      let (result, n) = net.recv (size - total) s.pipe in
      let round = take_in (λ i. read_loop fuel i size) total result (record s { pipe = n }) in
      if ltb total size then round else (ok tt, s)

  -- The loop of `WriteFromBuf`, for at most `fuel` rounds.
  unfoldable pub write_loop : ℕ → ℕ → ℕ → Exec (Tools N) (Unit {0})
  unfolding give_out
  write_loop zero total size s = if ltb total size then (hang, s) else (ok tt, s)
  write_loop (suc fuel) total size s =
      let round =
        then_do (giving (read_bytes s.buffer total (size - total)))
          (λ bs t.
            let (result, n) = net.send bs t.pipe in
            give_out (λ i. write_loop fuel i size) total result (record t { pipe = n }))
          s in
      if ltb total size then round else (ok tt, s)

  module _ (fuel : ℕ) where
    unfoldable pub put_error : List ℕ → Exec (Tools N) (Unit {0})
    put_error msg s =
        let count = if ltb (length msg) buffer_size then length msg else buffer_size in
        on_memory (write_bytes s.buffer 0 (no_ack ∷ (count % 256) ∷ []))
          (λ m s.
            on_memory (write_bytes m 2 msg)
              (λ m' s. write_loop fuel 0 (length msg + 2) (record s { buffer = m' })) s)
          s

    unfoldable pub put_ack : Exec (Tools N) (Unit {0})
    put_ack s =
        on_memory (write_bytes s.buffer 0 (ack ∷ []))
          (λ m s. write_loop fuel 0 1 (record s { buffer = m })) s

    -- The message of a refused launch, once its size is known.
    read_message : ℕ → Exec (Tools N) LaunchResult
    unfolding read_loop
    read_message size = then_do (read_loop fuel 0 size) λ _ s.
        on_memory (write_bytes s.buffer size (0 ∷ []))
          (λ m t.
            then_do (giving (read_bytes m 0 (size + 1))) (λ bs. giving (ok (refused (c_string bs))))
              (record t { buffer = m }))
          s

    unfoldable pub read_result : Exec (Tools N) LaunchResult
    unfolding read_loop read_message
    read_result = then_do (read_loop fuel 0 1) λ _ s.
        if s.buffer.cells 0 == ack
        then (ok launched, s)
        else then_do (read_loop fuel 0 1) (λ _ t. read_message (t.buffer.cells 0) t) s

abbrev pub eaddrinuse : ℕ
eaddrinuse = 98

-- `IsRunning`, with the outcome of opening a `ServerSocket` on the daemon's port.
unfoldable pub is_running : Outcome (Unit {0}) → Outcome Bool
is_running (ok u) = ok false
is_running (throw (runtime_error msg)) = throw (runtime_error msg)
is_running (throw (errno_exception msg e)) =
    if e == eaddrinuse then ok true else throw (errno_exception msg e)
is_running fault = fault
is_running hang = hang

-- The `catch` around an attempt; `rest` is what the rounds after it do.
abbrev pub after_attempt : {W C : Type 0} → Bool → Outcome C × W → Outcome C × W → Outcome C × W
after_attempt last (ok c, w) rest = (ok c, w)
after_attempt last (throw e, w) rest = if last then (throw e, w) else rest
after_attempt last (fault, w) rest = (fault, w)
after_attempt last (hang, w) rest = (hang, w)

module _ {W C : Type 0} (dummy : Exec W (Unit {0})) (attempt : Exec W C) (pause : W → W)
    (count : ℕ) where
  -- The loop of `Connect` from the attempt number `i` on: `attempt` is `Factory::Connect`, `pause` is
  -- `usleep`, `count` is `ConnAttemptCount`.
  unfoldable pub attempt_loop : ℕ → ℕ → Exec W C
  attempt_loop zero i w = (hang, w)
  attempt_loop (suc fuel) i w =
      let rest = attempt_loop fuel (i + 1) (pause (attempt w).1) in
      after_attempt (leb count i) (attempt w) rest

  connect_running : Bool → Exec W C
  unfolding attempt_loop
  connect_running running w =
      if running
      then attempt_loop (count + 1) 0 w
      else (throw (runtime_error (str "Connect: Daemon is not running")), w)

  -- `Connect`; the attempts are numbered from 0, so `count + 1` rounds are enough.
  unfoldable pub connect : Exec W C
  unfolding connect_running
  connect = then_do (λ w. (is_running (dummy w).0, (dummy w).1)) connect_running
