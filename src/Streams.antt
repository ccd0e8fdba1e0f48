-- ===== src/Streams.antt =====
-- The kernel's byte streams: `recv` and `send` on a connected socket, or `read` and `write` on a pipe,
-- and what is documented of them.
use roki_mb_daemon.Base.{ℕ, ◌≤◌, ◌<◌, ◌≡◌, List, ◌++◌, length, take}

pub data RecvResult : Type 0 where
  received : List ℕ → RecvResult
  recv_failed : ℕ → RecvResult

pub data SendResult : Type 0 where
  accepted : ℕ → SendResult
  send_failed : ℕ → SendResult

pub record Network (N : Type 0) : Type 0 where
  -- `recv` of at most so many bytes, and `send` of these bytes.
  pub recv : ℕ → N → RecvResult × N
  pub send : List ℕ → N → SendResult × N

-- A healthy connection: bytes that have arrived are delivered in order, at least one at a time, and
-- a prefix of what is sent, not empty, is accepted.
pub record Healthy {N : Type 0} (net : Network N) : Type 0 where
  pub pending : N → List ℕ
  pub sent : N → List ℕ
  pub recv_prefix :
      (k : ℕ) (n : N)
      → 0 < k
      → 0 < length (pending n)
      → (bs : List ℕ) × (n' : N) × (net.recv k n ≡ (received bs, n'))
        × (0 < length bs)
        × (length bs ≤ k)
        × (pending n ≡ bs ++ pending n')
        × (sent n' ≡ sent n)
  pub send_prefix :
      (bs : List ℕ) (n : N)
      → 0 < length bs
      → (k : ℕ) × (n' : N) × (net.send bs n ≡ (accepted k, n'))
        × (0 < k)
        × (k ≤ length bs)
        × (sent n' ≡ sent n ++ take k bs)
        × (pending n' ≡ pending n)
