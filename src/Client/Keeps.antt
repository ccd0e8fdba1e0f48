-- ===== src/Client/Keeps.antt =====
-- Src/Client.cpp: what the calls of a socket leave as it is, a call of a client leaves as it is.
use roki_mb_daemon.Base.{ℕ, ◌≡◌, refl, Bool, List, Outcome, str, then_do-Keeps, if-Keeps}
use roki_mb_daemon.Memory.{Memory}
use roki_mb_daemon.Streams.{Network}
use roki_mb_daemon.Rpc.{recv_package, pack_msg, pack_error, send_package}
use roki_mb_daemon.Rpc.Keeps.{
  on_network, Still, recv_package-Still, send_package-Still, pack_error-Still, pack_msg-Still,
}
use roki_mb_daemon.Client.{after_reply, proc_exception, request, await, call, soft_disconnect}

module _ {N X : Type 0} (net : Network N) (view : N → X) (signed : Bool)
    (recv_still : (k : ℕ) (n : N) → view (net.recv k n).1 ≡ view n)
    (send_still : (bs : List ℕ) (n : N) → view (net.send bs n).1 ≡ view n) where
  request-Still :
      (id size : ℕ) (serialize : Memory → ℕ → Outcome Memory)
      → Still net view (request net signed id size serialize)
  unfolding request
  request-Still id size serialize =
      then_do-Keeps (on_network net view) (pack_msg id size serialize)
        (λ _. send_package net signed) (pack_msg-Still net view id size serialize)
        (λ _. send_package-Still net view recv_still send_still signed)

  await-Still :
      {A : Type 0} (id : ℕ) (deserialize : Memory → ℕ → Outcome A)
      → Still net view (await net signed id deserialize)
  unfolding await after_reply
  await-Still id deserialize =
      then_do-Keeps (on_network net view) (recv_package net) (after_reply net signed id deserialize)
        (recv_package-Still net view recv_still send_still)
        (λ header s.
          if-Keeps (on_network net view) header.is_ok (deserialize s.buffer 0, s)
            (proc_exception signed id header.msg, s) (on_network net view s) refl refl)

  pub call-Still :
      {A : Type 0} (id size : ℕ) (serialize : Memory → ℕ → Outcome Memory)
      (deserialize : Memory → ℕ → Outcome A)
      → Still net view (call net signed id size serialize deserialize)
  unfolding call
  call-Still id size serialize deserialize =
      then_do-Keeps (on_network net view) (request net signed id size serialize)
        (λ _. await net signed id deserialize) (request-Still id size serialize)
        (λ _. await-Still id deserialize)

  pub soft_disconnect-Still : Still net view (soft_disconnect net signed)
  unfolding soft_disconnect
  soft_disconnect-Still =
      then_do-Keeps (on_network net view) (pack_error net (str "Disconnect"))
        (λ _. send_package net signed)
        (pack_error-Still net view recv_still send_still (str "Disconnect"))
        (λ _. send_package-Still net view recv_still send_still signed)
