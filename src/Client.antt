-- ===== src/Client.antt =====
-- Src/Client.cpp and Inc/roki-mb-daemon/Client.hpp: the other end of a connection.
pub mod Calls
pub mod Connects
pub mod Factory
pub mod Farewell
pub mod Keeps
use roki_mb_daemon.Base.{
  ℕ, Bool, true, false, List, ◌++◌, if◌then◌else◌, runtime_error, Outcome, ok, throw, fault, hang,
  ◌>>=◌, Exec, then_do, str,
}
use roki_mb_daemon.Memory.{Memory}
use roki_mb_daemon.RpcDefs.{to_str}
use roki_mb_daemon.Streams.{Network}
use roki_mb_daemon.Rpc.{
  Provider, MsgHeader, returning, recv_package, pack_msg, pack_error, send_package,
}

-- `ProcException::Message` with the name of the procedure.
unfoldable pub proc_message : List ℕ → List ℕ → List ℕ
proc_message name error =
    str "Remote procedure \"" ++ (name ++ (str "\" returned error: " ++ error))

-- `throw ProcException(Proc::ID, header.Msg)`.
unfoldable pub proc_exception : {A : Type 0} → Bool → ℕ → List ℕ → Outcome A
proc_exception signed id error =
    to_str signed id >>= λ name. throw (runtime_error (proc_message name error))

-- The two halves of `Call`: the request is packed and sent, and the answer is awaited.
unfoldable pub request :
    {N : Type 0}
    → Network N
    → Bool
    → ℕ
    → ℕ
    → (Memory → ℕ → Outcome Memory)
    → Exec (Provider N) (Unit {0})
request net signed id packed_size serialize =
    then_do (pack_msg id packed_size serialize) (λ _. send_package net signed)

module _ {N A : Type 0} (net : Network N) (signed : Bool) where
  -- The end of `Call`: the header has been received.
  unfoldable pub after_reply : ℕ → (Memory → ℕ → Outcome A) → MsgHeader → Exec (Provider N) A
  after_reply id deserialize header s =
      if header.is_ok then (deserialize s.buffer 0, s) else (proc_exception signed id header.msg, s)

  unfoldable pub await : ℕ → (Memory → ℕ → Outcome A) → Exec (Provider N) A
  unfolding after_reply
  await id deserialize = then_do (recv_package net) (after_reply id deserialize)

  -- `Call` of the procedure `id`, by the packed size and the `Serialize` of its request and the
  -- `Deserialize` of its reply.
  unfoldable pub call :
      ℕ → ℕ → (Memory → ℕ → Outcome Memory) → (Memory → ℕ → Outcome A) → Exec (Provider N) A
  unfolding request await
  call id packed_size serialize deserialize =
      then_do (request net signed id packed_size serialize) (λ _. await id deserialize)

-- `SoftDisconnect`.
unfoldable pub soft_disconnect : {N : Type 0} → Network N → Bool → Exec (Provider N) (Unit {0})
soft_disconnect net signed =
    then_do (pack_error net (str "Disconnect")) (λ _. send_package net signed)
