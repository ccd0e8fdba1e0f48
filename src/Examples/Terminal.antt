-- ===== src/Examples/Terminal.antt =====
-- Commands of `mbctl`, the farewell of a client, and the start of the firmware, on concrete inputs.
use roki_mb_daemon.Base.{
  ℕ, zero, suc, ◌≡◌, refl, ◌⊎◌, inr, true, List, [], ◌∷◌, ◌++◌, none, ok, some, str, arith, length,
}
use roki_mb_daemon.Streams.{RecvResult, received}
use roki_mb_daemon.HwUtils.{Os, exited}
use roki_mb_daemon.HwUtils.Find.{bootloader_find}
use roki_mb_daemon.HwUtils.Find.Descriptors.{Left, bootloader_find-Left}
use roki_mb_daemon.Sockets.Descriptors.{release}
use roki_mb_daemon.RpcDefs.ProcIds
use roki_mb_daemon.RpcDefs.Encoding.{Status, status_bytes, text_bytes, user_bytes}
use roki_mb_daemon.Memory.{le32}
use roki_mb_daemon.Rpc.Send.{packed}
use roki_mb_daemon.Client.Farewell.{farewell}
use roki_mb_daemon.Cli.Commands.{Attached, status}
use roki_mb_daemon.Cli.Runs.{Finished, status_text, status_prints}
use roki_mb_daemon.Examples.{dir, net, net-Healthy, Connection, provider}

abbrev attached : List ℕ → Attached Connection
attached bytes = record { output = str "$ "; provider = provider bytes }

abbrev taken_status : Status
taken_status = record {
  text = 66 ∷ 111 ∷ [];
  is_acquired = true;
  holder = record { user_name = 97 ∷ []; user_pid = 42 };
}

length-taken_status : length (status_bytes taken_status) ≡ 10
unfolding status_bytes user_bytes text_bytes le32
length-taken_status = refl

abbrev answered : Attached Connection
answered = attached (packed ProcIds.get_status (status_bytes taken_status) ++ [])

status_prints_example :
    (b : Attached Connection) × (status net true answered ≡ (ok tt, b))
    × Finished net true net-Healthy
        (status_text taken_status)
        (packed ProcIds.get_status [] ++ (farewell ++ farewell))
        []
        answered
        b
status_prints_example =
    status_prints net true net-Healthy taken_status [] answered (omega arith) (omega arith)
      (omega arith) (omega (arith, length-taken_status)) (refl, refl) refl

-- The output of the script comes in two reads, and then ends.
abbrev reads : ℕ → ℕ → RecvResult × ℕ
reads k zero = (received (47 ∷ 100 ∷ []), 1)
reads k (suc zero) = (received (101 ∷ []), 2)
reads k (suc (suc n)) = (received [], suc (suc n))

abbrev open_pipe : ℕ → (ℕ ⊎ (ℕ × ℕ)) × ℕ
open_pipe w = (inr (4, 5), w)

-- The world of the open descriptors alone. No child can be created.
abbrev failing : Os (List ℕ)
failing = record {
  fork = λ w. (some 11, w);
  dup2 = λ fd w. (none, w);
  wait = λ w. (none, w);
  sh = λ cmd w. (some (exited 1), w);
  close = release;
}

bootloader_find-Left_example :
    Left failing
      (λ w. w)
      (λ w. refl)
      (λ fd w. refl)
      (λ w. refl)
      (λ cmd w. refl)
      (λ fd w. refl)
      true
      0
      (λ fd k w. (received [], w))
      (λ fd k w. refl)
      (some 11)
      (inr (7, 8))
      (1 ∷ [])
      (bootloader_find true 0
        (λ fd k w. (received [], w))
        failing
        dir
        5
        (λ w. (inr (7, 8), 7 ∷ 8 ∷ w))
        (1 ∷ []))
bootloader_find-Left_example =
    bootloader_find-Left failing (λ w. w) (λ w. refl) (λ fd w. refl) (λ w. refl) (λ cmd w. refl)
      (λ fd w. refl) true 0 (λ fd k w. (received [], w)) (λ fd k w. refl) dir 5
      (λ w. (inr (7, 8), 7 ∷ 8 ∷ w)) (λ w. refl) (1 ∷ [])
