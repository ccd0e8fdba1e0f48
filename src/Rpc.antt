-- ===== src/Rpc.antt =====
-- Src/RPC.cpp and Inc/roki-mb-daemon/RPC.hpp: packages over a connection. The kernel's `recv` and
-- `send` are a parameter: they take and give as many bytes as they like.
pub mod Receive
pub mod SendLoop
pub mod Send
pub mod Empty
pub mod Limits
pub mod Keeps
use roki_mb_daemon.Base.{
  ℕ, zero, suc, ◌+◌, ◌-◌, ◌%◌, ◌^◌, Bool, true, false, not, List, [], ◌∷◌, ltb, ◌==◌, if◌then◌else◌,
  runtime_error, errno_exception, Outcome, ok, throw, fault, hang, Exec, then_do, str, length,
}
use roki_mb_daemon.Memory.{Memory, write_bytes, read_bytes, as_size}
use roki_mb_daemon.Streams.{
  RecvResult, received, recv_failed, SendResult, accepted, send_failed, Network,
}

abbrev pub buf_size : ℕ
buf_size = 256

pub record Provider (N : Type 0) : Type 0 where
  pub buffer : Memory
  pub err_code : ℕ
  pub network : N

-- `struct MsgHeader`; `data` points to the start of the buffer, so it is not a field.
pub record MsgHeader : Type 0 where
  pub is_ok : Bool
  pub msg : List ℕ
  pub proc_id : ℕ
  pub size : ℕ

-- A step that writes to the buffer.
abbrev pub on_buffer :
    {N A : Type 0}
    → Outcome Memory
    → (Memory → Provider N → Outcome A × Provider N)
    → Provider N
    → Outcome A × Provider N
on_buffer (ok m) k s = k m s
on_buffer (throw e) k s = (throw e, s)
on_buffer fault k s = (fault, s)
on_buffer hang k s = (hang, s)

abbrev pub returning : {N A : Type 0} → Outcome A → Exec (Provider N) A
returning r s = (r, s)

-- What a round of `RecvToBuffer` does with the result of `recv`; `again` is the next round.
unfoldable pub absorb :
    {N : Type 0}
    → (ℕ → Exec (Provider N) (Unit {0}))
    → ℕ
    → RecvResult
    → Exec (Provider N) (Unit {0})
absorb again total (recv_failed e) s =
    (throw (errno_exception (str "RecvToBuffer: Failed to recv()") e), s)
absorb again total (received []) s =
    (throw (runtime_error (str "RecvToBuffer: Connection closed")), s)
absorb again total (received (b ∷ rest)) s =
    on_buffer (write_bytes s.buffer total (b ∷ rest))
      (λ m t. again (total + suc (length rest)) (record t { buffer = m })) s

-- What a round of `SendFromBuffer` does with the result of `send`, with its `assert(ret != 0)`.
unfoldable pub progress :
    {N : Type 0}
    → (ℕ → Exec (Provider N) (Unit {0}))
    → ℕ
    → SendResult
    → Exec (Provider N) (Unit {0})
progress again total (send_failed e) s =
    (throw (errno_exception (str "SendFromBuffer: Failed to send()") e), s)
progress again total (accepted zero) s = (fault, s)
progress again total (accepted (suc k)) s = again (total + suc k) s

module _ {N : Type 0} (net : Network N) where
  -- The loop of `RecvToBuffer`. Each round takes a byte at least, so `size` rounds are enough.
  unfoldable pub recv_loop : ℕ → ℕ → ℕ → Exec (Provider N) (Unit {0})
  unfolding absorb
  recv_loop zero total size s = if ltb total size then (hang, s) else (ok tt, s)
  recv_loop (suc fuel) total size s =
      let (result, n) = net.recv (size - total) s.network in
      let round = absorb (λ i. recv_loop fuel i size) total result (record s { network = n }) in
      if ltb total size then round else (ok tt, s)

  unfoldable pub recv_to_buffer : ℕ → Exec (Provider N) (Unit {0})
  unfolding recv_loop
  recv_to_buffer size = recv_loop size 0 size

  -- The loop of `SendFromBuffer`.
  unfoldable pub send_loop : ℕ → ℕ → ℕ → Exec (Provider N) (Unit {0})
  unfolding progress
  send_loop zero total size s = if ltb total size then (hang, s) else (ok tt, s)
  send_loop (suc fuel) total size s =
      let round =
        then_do (returning (read_bytes s.buffer total (size - total)))
          (λ bs t.
            let (result, n) = net.send bs t.network in
            progress (λ i. send_loop fuel i size) total result (record t { network = n }))
          s in
      if ltb total size then round else (ok tt, s)

  unfoldable pub send_from_buffer : ℕ → Exec (Provider N) (Unit {0})
  unfolding send_loop
  send_from_buffer size = send_loop size 0 size

  unfoldable pub pack_error : List ℕ → Exec (Provider N) (Unit {0})
  pack_error msg s =
      if ltb 255 (length msg)
      then (throw (runtime_error (str "PackError: Message to big to fit inside package")), s)
      else on_buffer (write_bytes s.buffer 0 (s.err_code ∷ length msg ∷ []))
          (λ m s.
            on_buffer (write_bytes m 2 msg)
              (λ m' s. send_from_buffer (length msg + 2) (record s { buffer = m' })) s)
          s

  -- The end of `RecvPackage`, with the two bytes of the head.
  finish_package : ℕ → ℕ → Exec (Provider N) MsgHeader
  finish_package b0 b1 s =
      let good = not (b0 == s.err_code) in
      then_do (recv_to_buffer b1)
        (λ _ t.
          then_do (returning (if good then ok (str "OK") else read_bytes t.buffer 0 b1))
            (λ text. returning (ok (record { is_ok = good; msg = text; proc_id = b0; size = b1 })))
            t)
        s

  unfoldable pub recv_package : Exec (Provider N) MsgHeader
  unfolding finish_package
  recv_package =
      then_do (recv_to_buffer 2) (λ _ s. finish_package (s.buffer.cells 0) (s.buffer.cells 1) s)

-- `PackMsg`: the packed size and the `Serialize` of the message are given.
unfoldable pub pack_msg :
    {N : Type 0} → ℕ → ℕ → (Memory → ℕ → Outcome Memory) → Exec (Provider N) (Unit {0})
pack_msg proc_id packed_size serialize s =
    on_buffer (write_bytes s.buffer 0 (proc_id ∷ packed_size ∷ []))
      (λ m s. on_buffer (serialize m 2) (λ m' s. (ok tt, record s { buffer = m' })) s) s

-- `SendPackage`: `Buffer[1] + 2`, where `Buffer[1]` is a `char`.
unfoldable pub send_package : {N : Type 0} → Network N → Bool → Exec (Provider N) (Unit {0})
unfolding as_size
send_package net signed s =
    send_from_buffer net ((as_size signed (s.buffer.cells 1) + 2) % 2 ^ 64) s
