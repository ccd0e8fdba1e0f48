-- ===== src/Rpc/Keeps.antt =====
-- Src/RPC.cpp: what the calls of a socket leave as it is, a whole package leaves as it is.
use roki_mb_daemon.Base.{
  ℕ, zero, suc, ◌+◌, ◌-◌, ◌%◌, ◌^◌, ◌≡◌, refl, ◌∙◌, Bool, not, List, [], ◌∷◌, Outcome, ok, throw,
  fault, hang, Exec, resume, then_do, length, ltb, ◌==◌, if◌then◌else◌, str, Keeps, resume-Keeps,
  then_do-Keeps, if-Keeps,
}
use roki_mb_daemon.Memory.{Memory, write_bytes, read_bytes, as_size}
use roki_mb_daemon.Streams.{
  Network, RecvResult, received, recv_failed, SendResult, accepted, send_failed,
}
use roki_mb_daemon.Rpc.{
  Provider, MsgHeader, on_buffer, returning, absorb, progress, recv_loop, recv_to_buffer, send_loop,
  send_from_buffer, pack_error, finish_package, recv_package, pack_msg, send_package,
}

module _ {N X : Type 0} (net : Network N) (view : N → X) where
  abbrev pub on_network : Provider N → X
  on_network p = view p.network

  -- A call on the connection that keeps the view.
  abbrev pub Still : {A : Type 0} → Exec (Provider N) A → Type 0
  Still = Keeps on_network

  on_buffer-Still :
      {A : Type 0} (r : Outcome Memory) (k : Memory → Exec (Provider N) A)
      → ((m : Memory) → Still (k m))
      → Still (on_buffer r k)
  on_buffer-Still (ok m) k h s = h m s
  on_buffer-Still (throw e) k h s = refl
  on_buffer-Still fault k h s = refl
  on_buffer-Still hang k h s = refl

  absorb-Still :
      (again : ℕ → Exec (Provider N) (Unit {0})) (total : ℕ) (r : RecvResult)
      → ((i : ℕ) → Still (again i))
      → Still (absorb again total r)
  unfolding absorb
  absorb-Still again total (recv_failed e) h s = refl
  absorb-Still again total (received []) h s = refl
  absorb-Still again total (received (b ∷ rest)) h s =
      on_buffer-Still (write_bytes s.buffer total (b ∷ rest))
        (λ m t. again (total + suc (length rest)) (record t { buffer = m }))
        (λ m t. h (total + suc (length rest)) (record t { buffer = m })) s

  progress-Still :
      (again : ℕ → Exec (Provider N) (Unit {0})) (total : ℕ) (r : SendResult)
      → ((i : ℕ) → Still (again i))
      → Still (progress again total r)
  unfolding progress
  progress-Still again total (send_failed e) h s = refl
  progress-Still again total (accepted zero) h s = refl
  progress-Still again total (accepted (suc k)) h s = h (total + suc k) s

  pub pack_msg-Still :
      (id size : ℕ) (serialize : Memory → ℕ → Outcome Memory) → Still (pack_msg id size serialize)
  unfolding pack_msg
  pack_msg-Still id size serialize s =
      on_buffer-Still (write_bytes s.buffer 0 (id ∷ size ∷ []))
        (λ m s. on_buffer (serialize m 2) (λ m' s. (ok tt, record s { buffer = m' })) s)
        (λ m.
          on_buffer-Still (serialize m 2) (λ m' s. (ok tt, record s { buffer = m' }))
            (λ m' s. refl))
        s

  module _ (recv_still : (k : ℕ) (n : N) → view (net.recv k n).1 ≡ view n)
      (send_still : (bs : List ℕ) (n : N) → view (net.send bs n).1 ≡ view n) where
    recv_loop-Still : (fuel total size : ℕ) → Still (recv_loop net fuel total size)
    unfolding recv_loop
    recv_loop-Still zero total size s =
        if-Keeps on_network (ltb total size) (hang, s) (ok tt, s) (view s.network) refl refl
    recv_loop-Still (suc fuel) total size s =
        let n : N = (net.recv (size - total) s.network).1 in
        let step =
          absorb-Still (λ i. recv_loop net fuel i size) total (net.recv (size - total) s.network).0
            (λ i. recv_loop-Still fuel i size) (record s { network = n })
          ∙ recv_still (size - total) s.network in
        if-Keeps on_network (ltb total size) _ (ok tt, s) (view s.network) step refl

    recv_to_buffer-Still : (size : ℕ) → Still (recv_to_buffer net size)
    unfolding recv_to_buffer
    recv_to_buffer-Still size = recv_loop-Still size 0 size

    finish_package-Still : (b0 b1 : ℕ) → Still (finish_package net b0 b1)
    unfolding finish_package
    finish_package-Still b0 b1 s =
        let good : Bool = not (b0 == s.err_code) in
        let head : List ℕ → Exec (Provider N) MsgHeader =
          λ text. returning (ok (record { is_ok = good; msg = text; proc_id = b0; size = b1 })) in
        then_do-Keeps on_network (recv_to_buffer net b1)
          (λ _ t.
            then_do (returning (if good then ok (str "OK") else read_bytes t.buffer 0 b1)) head t)
          (recv_to_buffer-Still b1)
          (λ _ t.
            resume-Keeps on_network (if good then ok (str "OK") else read_bytes t.buffer 0 b1) head
              (λ text u. refl) t)
          s

    -- A whole package is received, or the call fails: the view is the same.
    pub recv_package-Still : Still (recv_package net)
    unfolding recv_package finish_package
    recv_package-Still =
        then_do-Keeps on_network (recv_to_buffer net 2)
          (λ _ s. finish_package net (s.buffer.cells 0) (s.buffer.cells 1) s)
          (recv_to_buffer-Still 2)
          (λ _ s. finish_package-Still (s.buffer.cells 0) (s.buffer.cells 1) s)

    send_round-Still :
        (fuel total size : ℕ) (bytes : Outcome (List ℕ))
        → ((i : ℕ) → Still (send_loop net fuel i size))
        → Still (
            resume bytes λ bs t.
              let (result, n) = net.send bs t.network in
              progress (λ i. send_loop net fuel i size) total result (record t { network = n }))
    send_round-Still fuel total size bytes again =
        resume-Keeps on_network bytes
          (λ bs t.
            let (result, n) = net.send bs t.network in
            progress (λ i. send_loop net fuel i size) total result (record t { network = n }))
          (λ bs t.
            progress-Still (λ i. send_loop net fuel i size) total (net.send bs t.network).0 again
              (record t { network = (net.send bs t.network).1 })
            ∙ send_still bs t.network)

    send_loop-Still : (fuel total size : ℕ) → Still (send_loop net fuel total size)
    unfolding send_loop
    send_loop-Still zero total size s =
        if-Keeps on_network (ltb total size) (hang, s) (ok tt, s) (view s.network) refl refl
    send_loop-Still (suc fuel) total size s =
        if-Keeps on_network (ltb total size) _ (ok tt, s) (view s.network)
          (send_round-Still fuel total size (read_bytes s.buffer total (size - total))
            (λ i. send_loop-Still fuel i size) s)
          refl

    send_from_buffer-Still : (size : ℕ) → Still (send_from_buffer net size)
    unfolding send_from_buffer
    send_from_buffer-Still size = send_loop-Still size 0 size

    pub send_package-Still : (signed : Bool) → Still (send_package net signed)
    unfolding send_package
    send_package-Still signed s =
        send_from_buffer-Still ((as_size signed (s.buffer.cells 1) + 2) % 2 ^ 64) s

    pub pack_error-Still : (msg : List ℕ) → Still (pack_error net msg)
    unfolding pack_error
    pack_error-Still msg s = if-Keeps on_network (ltb 255 (length msg)) _ _ (view s.network) refl (
        on_buffer-Still (write_bytes s.buffer 0 (s.err_code ∷ length msg ∷ []))
          (λ m s.
            on_buffer (write_bytes m 2 msg)
              (λ m' s. send_from_buffer net (length msg + 2) (record s { buffer = m' })) s)
          (λ m.
            on_buffer-Still (write_bytes m 2 msg)
              (λ m' s. send_from_buffer net (length msg + 2) (record s { buffer = m' }))
              (λ m' s. send_from_buffer-Still (length msg + 2) (record s { buffer = m' })))
          s)
