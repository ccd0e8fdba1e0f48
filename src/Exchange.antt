-- ===== src/Exchange.antt =====
-- Src/Client.cpp and Src/Server.cpp together: a call of a client, the round of the server's loop that
-- serves it, and the answer, over the two directions of one connection.
pub mod Rounds
pub mod Clients
pub mod Rivals
pub mod Hello
use roki_mb_daemon.Base.{ℕ, ◌≡◌, Bool, Outcome, resume}
use roki_mb_daemon.Memory.{Memory}
use roki_mb_daemon.Streams.{Network, Healthy}
use roki_mb_daemon.Rpc.{Provider}
use roki_mb_daemon.Server.{Session, Server, Next, serve_round}
use roki_mb_daemon.Client.{request, await}

-- The two ends of a connection: what one end has sent and the other has not taken is what is pending
-- at the other.
pub record Link {N : Type 0} (near far : Network N) : Type 0 where
  pub near_end : Healthy near
  pub far_end : Healthy far
  pub up : (n : N) → near_end.sent n ≡ far_end.pending n
  pub down : (n : N) → far_end.sent n ≡ near_end.pending n

-- The session with this connection.
abbrev pub plug : {H N : Type 0} → N → Session H N → Session H N
plug n s = record s { provider = record s.provider { network = n } }

-- `Call` on the near end while the thread at the far end does one round of its loop. The connection is
-- the one that the client's provider holds.
abbrev pub exchange :
    {H N A : Type 0}
    → Server H N
    → Network N
    → Bool
    → ℕ
    → ℕ
    → (Memory → ℕ → Outcome Memory)
    → (Memory → ℕ → Outcome A)
    → Provider N
    → Session H N
    → (Outcome A × Provider N) × (Next × Session H N)
exchange server near signed id packed_size serialize deserialize c s =
    let (asked, c') = request near signed id packed_size serialize c in
    let (next, t) = serve_round server (plug c'.network s) in
    (
      resume asked (λ _. await near signed id deserialize)
          (record c' { network = t.provider.network }),
      (next, t),
    )
