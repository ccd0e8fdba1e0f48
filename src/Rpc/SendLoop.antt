-- ===== src/Rpc/SendLoop.antt =====
-- Src/RPC.cpp: the loop of `SendFromBuffer`.
use roki_mb_daemon.Base.{
  ℕ, zero, suc, ◌+◌, ◌-◌, ◌≤◌, ◌<◌, ◌≡◌, ◌≢◌, refl, sym, ap, subst, ◌∙◌, true, List, [], ◌∷◌, ◌++◌,
  Outcome, ok, hang, arith, length, length-take, take, drop, take-append-drop, length-drop, ltb,
}
use mathlib.Core.List.{append-nil, append_assoc}
use roki_mb_daemon.Memory.{read, read_bytes}
use roki_mb_daemon.Memory.Laws.{Holds, Holds-right}
use roki_mb_daemon.Streams.{Network, SendResult, accepted, send_failed, Healthy}
use roki_mb_daemon.RpcDefs.RoundTrip.{read_bytes_lem}
use roki_mb_daemon.Rpc.{Provider, progress, send_loop, send_from_buffer}

module _ {N : Type 0} (net : Network N) where
  progress-ne-hang :
      (again : ℕ → Provider N → Outcome (Unit {0}) × Provider N) (total : ℕ) (r : SendResult)
      (s : Provider N)
      → ((i : ℕ) (t : Provider N) → total < i → (again i t).0 ≢ hang)
      → (progress again total r s).0 ≢ hang
  unfolding progress
  progress-ne-hang again total (send_failed e) s h = λ e. cc
  progress-ne-hang again total (accepted zero) s h = λ e. cc
  progress-ne-hang again total (accepted (suc k)) s h = h (total + suc k) s (omega arith)

  send_loop-ne-hang :
      (fuel total size : ℕ) (s : Provider N)
      → size ≤ total + fuel
      → (send_loop net fuel total size s).0 ≢ hang
  unfolding send_loop read_bytes
  send_loop-ne-hang zero total size s h = ground arith
  send_loop-ne-hang (suc fuel) total size s h =
      let sending = net.send (read s.buffer.cells total (size - total)) s.network in
      ground (
        arith,
        progress-ne-hang (λ i. send_loop net fuel i size) total sending.0
            (record s { network = sending.1 })
            (λ i t lt. send_loop-ne-hang fuel i size t (omega arith)),
      )

  -- `SendFromBuffer` ends on every connection, healthy or not: `size` rounds are enough.
  pub send_from_buffer-ne-hang :
      (size : ℕ) (s : Provider N) → (send_from_buffer net size s).0 ≢ hang
  unfolding send_from_buffer
  send_from_buffer-ne-hang size s = send_loop-ne-hang size 0 size s (omega arith)

module _ {N : Type 0} (net : Network N) (healthy : Healthy net) where
  open healthy use {pending, sent, send_prefix}

  -- The loop returns with these bytes added to what has been sent, and only the network changed.
  abbrev pub Sent : Outcome (Unit {0}) × Provider N → List ℕ → Provider N → Type 0
  Sent r bs s =
      (n : N) × (r ≡ (ok tt, record s { network = n }))
      × (sent n ≡ sent s.network ++ bs)
      × (pending n ≡ pending s.network)

  send_step :
      (fuel total size k : ℕ) (bs : List ℕ) (n : N) (s : Provider N)
      → total < size
      → size ≤ s.buffer.size
      → read s.buffer.cells total (size - total) ≡ bs
      → net.send bs s.network ≡ (accepted (suc k), n)
      → send_loop net (suc fuel) total size s
        ≡ send_loop net fuel (total + suc k) size (record s { network = n })
  unfolding send_loop
  send_step fuel total size k bs n s lt fits r e =
      let test : ltb total size ≡ true = ground arith in
      rw (test, read_bytes_lem s.buffer total (size - total) (omega arith), r, e)

  -- The bytes behind the first `k`.
  Holds-drop :
      (c : ℕ → ℕ) (p k : ℕ) (bs : List ℕ)
      → k ≤ length bs
      → Holds c p bs
      → Holds c (p + k) (drop k bs)
  Holds-drop c p k bs h held =
      let e : length (take k bs) ≡ k = omega (arith, length-take k bs) in
      subst (λ i. Holds c (p + i) (drop k bs)) e
        (Holds-right c p (take k bs) (drop k bs) (rw (take-append-drop k bs) held))

  -- One round has sent `k` bytes, and `ih` speaks of the rounds after it.
  send_more :
      (fuel total size : ℕ) (bs : List ℕ) (s : Provider N) (k : ℕ) (n : N)
      → total < size
      → total + length bs ≡ size
      → size ≤ s.buffer.size
      → Holds s.buffer.cells total bs
      → net.send bs s.network ≡ (accepted k, n)
      → 0 < k
      → k ≤ length bs
      → sent n ≡ sent s.network ++ take k bs
      → pending n ≡ pending s.network
      → Sent
          (send_loop net fuel (total + k) size (record s { network = n }))
          (drop k bs)
          (record s { network = n })
      → Sent (send_loop net (suc fuel) total size s) bs s
  send_more fuel total size bs s zero n lt e fits held got some_ few order quiet ih =
      absurd (omega arith)
  send_more fuel total size bs s (suc k) n lt e fits held got some_ few order quiet
        (n', ran, order', quiet') =
      let left : size - total ≡ length bs = omega arith in
      (
        n',
        send_step fuel total size k bs n s lt fits (rw left held.at) got ∙ ran,
        order'
            ∙ rw order (
                append_assoc (sent s.network) (take (suc k) bs) (drop (suc k) bs)
                ∙ ap (◌++◌ (sent s.network)) (take-append-drop (suc k) bs)),
        quiet' ∙ quiet,
      )

  pub send_loop_lem :
      (fuel total size : ℕ) (bs : List ℕ) (s : Provider N)
      → length bs ≤ fuel
      → total + length bs ≡ size
      → size ≤ s.buffer.size
      → Holds s.buffer.cells total bs
      → Sent (send_loop net fuel total size s) bs s
  send_loop_lem zero total size [] s h e fits held =
      (s.network, unfold send_loop in ground arith, sym (append-nil _), refl)
  send_loop_lem zero total size (b ∷ bs) s h e fits held = absurd (omega arith)
  send_loop_lem (suc fuel) total size [] s h e fits held =
      (s.network, unfold send_loop in ground arith, sym (append-nil _), refl)
  send_loop_lem (suc fuel) total size (b ∷ bs) s h e fits held =
      let (k, n, got, some_, few, order, quiet) = send_prefix (b ∷ bs) s.network (omega arith) in
      send_more fuel total size (b ∷ bs) s k n (omega arith) e fits held got some_ few order quiet (
        send_loop_lem fuel (total + k) size (drop k (b ∷ bs)) (record s { network = n })
          (omega (arith, length-drop k (b ∷ bs))) (omega (arith, length-drop k (b ∷ bs))) fits
          (Holds-drop s.buffer.cells total k (b ∷ bs) few held))

  pub send_from_buffer_lem :
      (bs : List ℕ) (s : Provider N)
      → length bs ≤ s.buffer.size
      → Holds s.buffer.cells 0 bs
      → Sent (send_from_buffer net (length bs) s) bs s
  unfolding send_from_buffer
  send_from_buffer_lem bs s fits held =
      send_loop_lem (length bs) 0 (length bs) bs s (omega arith) (omega arith) fits held
