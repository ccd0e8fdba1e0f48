-- ===== src/Handler/Threads/Race.antt =====
-- Src/HandlerImpl.cpp: `Flash` and `Reset` release the handler's mutex between the check of
-- `Acquired` and the operation.
use roki_mb_daemon.Base.{ℕ, ◌≡◌, ◌≢◌, refl, true, false, List, none, some, arith}
use roki_mb_daemon.HwUtils.{Os}
use roki_mb_daemon.Firmware.{boot, running, transition, check_state, check_from}
use roki_mb_daemon.Firmware.Transitions.{reset}
use roki_mb_daemon.Handler.Threads.{
  idle, cleared, acting, connecting, Shared, move, routine, clear_reset, begin, succeed,
  check_connect, grant, Reach, here, next,
}

module _ {W : Type 0} (os : Os W) (dir : List ℕ) where
  -- From every state with a running chip, a free port, a free mutex and two idle threads, an
  -- interleaving leads to a chip in the bootloader whose port is granted.
  pub reset_under_connect :
      (s : Shared) (i j : ℕ)
      → i ≢ j
      → s.places i ≡ idle
      → s.places j ≡ idle
      → s.owner ≡ none
      → s.acquired ≡ false
      → s.state ≡ running
      → (t : Shared) × Reach os dir s t × (t.acquired ≡ true) × (t.state ≡ boot)
  unfolding move routine check_state check_from
  reset_under_connect s i j n pi pj o a r = (
    s5,
    next i
        (next i
          (next j
            (next j (next i here (clear_reset pi o a refl))
              (check_connect (ground arith) o a r refl))
            (grant (ground arith) refl))
          (begin reset (ground arith) (ground arith) refl))
        (succeed reset (ground arith) refl),
    refl,
    refl,
  )
    where
      s1 : Shared
      s1 = record s { places = move s.places i (cleared reset) }

      s2 : Shared
      s2 = record s1 { owner = some j; places = move s1.places j connecting }

      s3 : Shared
      s3 = record s2 { acquired = true; owner = none; places = move s2.places j idle }

      s4 : Shared
      s4 = record s3 { state = transition; places = move s3.places i (acting reset) }

      s5 : Shared
      s5 = record s4 { state = boot; places = move s4.places i idle }
