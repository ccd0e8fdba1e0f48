-- ===== src/Handler/Threads.antt =====
-- Src/HandlerImpl.cpp and Src/FirmwareFSM.cpp under many connection threads. A step is what one
-- thread does while it holds a mutex, or the end of the script that it runs while it holds none.
pub mod Exclusion
pub mod Race
use roki_mb_daemon.Base.{ℕ, ◌≡◌, Bool, true, false, List, Option, none, some, if◌then◌else◌, ◌==◌}
use roki_mb_daemon.HwUtils.{Os}
use roki_mb_daemon.Firmware.{
  FwState, boot, running, transition, in_fault, TransitionRoutine, check_state, reset_routine,
  flash_routine, start_routine,
}
use roki_mb_daemon.Firmware.Transitions.{Call, reset, start, flash}

-- Where a thread stands between two steps.
pub data Place : Type 0 where
  -- It waits for a request.
  idle : Place
  -- `Flash` and `Reset` have passed `EnsureNotAcquired`; `Start` has been called.
  cleared : Call → Place
  -- `DoTransition` has set `Transition` and released its mutex; the script runs.
  acting : Call → Place
  -- `Connect` holds the handler's mutex and has seen a running chip and a free port.
  connecting : Place

pub record Shared : Type 0 where
  pub state : FwState
  pub acquired : Bool
  -- The thread that holds the handler's mutex between two steps.
  pub owner : Option ℕ
  pub places : ℕ → Place

unfoldable pub move : (ℕ → Place) → ℕ → Place → ℕ → Place
move places i p j = if i == j then p else places j

-- The daemon after its constructor has reset the chip.
abbrev pub initial : Shared
initial = record { state = boot; acquired = false; owner = none; places = λ i. idle }

module _ {W : Type 0} (os : Os W) (dir : List ℕ) where
  unfoldable pub routine : Call → TransitionRoutine W
  routine reset = reset_routine os dir
  routine start = start_routine os dir
  routine (flash path) = flash_routine os dir path

  -- Thread `i` takes the shared state from `s` to `t`.
  pub data Step (i : ℕ) (s t : Shared) : Type 0 where
    clear_flash :
        (path : List ℕ)
        → s.places i ≡ idle
        → s.owner ≡ none
        → s.acquired ≡ false
        → t ≡ record s { places = move s.places i (cleared (flash path)) }
        → Step i s t
    clear_reset :
        s.places i ≡ idle
        → s.owner ≡ none
        → s.acquired ≡ false
        → t ≡ record s { places = move s.places i (cleared reset) }
        → Step i s t
    call_start :
        s.places i ≡ idle → t ≡ record s { places = move s.places i (cleared start) } → Step i s t
    begin :
        (c : Call)
        → s.places i ≡ cleared c
        → check_state s.state (routine c).expected_states ≡ true
        → t ≡ record s { state = transition; places = move s.places i (acting c) }
        → Step i s t
    refuse :
        (c : Call)
        → s.places i ≡ cleared c
        → check_state s.state (routine c).expected_states ≡ false
        → t ≡ record s { places = move s.places i idle }
        → Step i s t
    succeed :
        (c : Call)
        → s.places i ≡ acting c
        → t ≡ record s { state = (routine c).final_state; places = move s.places i idle }
        → Step i s t
    fail :
        (c : Call)
        → s.places i ≡ acting c
        → t ≡ record s { state = in_fault; places = move s.places i idle }
        → Step i s t
    check_connect :
        s.places i ≡ idle
        → s.owner ≡ none
        → s.acquired ≡ false
        → s.state ≡ running
        → t ≡ record s { owner = some i; places = move s.places i connecting }
        → Step i s t
    grant :
        s.places i ≡ connecting
        → t ≡ record s { acquired = true; owner = none; places = move s.places i idle }
        → Step i s t
    fail_connect :
        s.places i ≡ connecting
        → t ≡ record s { owner = none; places = move s.places i idle }
        → Step i s t
    release :
        s.places i ≡ idle
        → s.owner ≡ none
        → s.acquired ≡ true
        → t ≡ record s { acquired = false }
        → Step i s t

  pub data Reach (s : Shared) : Shared → Type 0 where
    here : Reach s s
    next : {t u : Shared} (i : ℕ) → Reach s t → Step i t u → Reach s u
