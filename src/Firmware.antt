-- ===== src/Firmware.antt =====
-- Src/FirmwareFSM.cpp and Inc/roki-mb-daemon/FirmwareFSM.hpp: the state machine of the chip's
-- firmware. A call runs alone here; Handler/Threads.antt interleaves the calls of many threads.
pub mod Boot
pub mod Transitions
use roki_mb_daemon.Base.{
  ℕ, String, Bool, true, false, List, [], ◌∷◌, ◌++◌, ◌&&◌, if◌then◌else◌, Exception, runtime_error,
  Outcome, ok, throw, fault, hang, ◌>>=◌, Exec, then_do, str,
}
use roki_mb_daemon.HwUtils.{Os, chip_reset, bootloader_flash, bootloader_start}

pub data FwState : Type 0 where
  boot running transition in_fault : FwState

pub FwState-discrete : Discrete FwState
FwState-discrete = hlevel

abbrev pub same_state : FwState → FwState → Bool
same_state boot boot = true
same_state running running = true
same_state transition transition = true
same_state in_fault in_fault = true
same_state _ _ = false

unfoldable pub state_to_str : FwState → List ℕ
state_to_str boot = str "Boot"
state_to_str running = str "Running"
state_to_str in_fault = str "Fault"
state_to_str transition = str "Transition"

-- The names in `struct Routines`.
pub data RoutineName : Type 0 where
  empty chip_resetting fw_flashing fw_starting : RoutineName

unfoldable pub routine_str : RoutineName → List ℕ
routine_str empty = str "Nothing"
routine_str chip_resetting = str "Chip reset"
routine_str fw_flashing = str "Firmware flashing"
routine_str fw_starting = str "Firmware starting"

-- The fields that `Mutex` protects, and the world that the scripts act on.
pub record Firmware (W : Type 0) : Type 0 where
  pub state : FwState
  pub routine_name : RoutineName
  pub mb_port : List ℕ
  pub world : W

pub record TransitionRoutine (W : Type 0) : Type 0 where
  pub name : RoutineName
  pub action : Exec W (Unit {0})
  pub expected_states : List FwState
  pub final_state : FwState

-- The loop of `ComposeMsg`; `expected.back()` of no state is undefined.
compose_expected : FwState → List FwState → List ℕ
unfolding state_to_str
compose_expected s [] = state_to_str s
compose_expected s (t ∷ ts) = state_to_str s ++ (str ", " ++ compose_expected t ts)

-- The message for the states `s ∷ ss`.
pub inappropriate : RoutineName → FwState → FwState → List FwState → List ℕ
unfolding compose_expected routine_str state_to_str
inappropriate operation got s ss =
    str "Inappropriate state for operation \""
    ++ (routine_str operation
        ++ (str "\": "
            ++ (str "Got "
                ++ (state_to_str got
                    ++ (str "," ++ (str " Expected one of: " ++ compose_expected s ss))))))

unfoldable pub compose_msg : RoutineName → FwState → List FwState → Outcome (List ℕ)
unfolding inappropriate
compose_msg operation got [] = fault
compose_msg operation got (s ∷ ss) = ok (inappropriate operation got s ss)

-- `for (auto required : expected) passed = passed ? true : State == required;`
unfoldable pub check_from : Bool → FwState → List FwState → Bool
check_from passed s [] = passed
check_from passed s (required ∷ rest) =
    check_from (if passed then true else same_state s required) s rest

unfoldable pub check_state : FwState → List FwState → Bool
unfolding check_from
check_state s expected = check_from false s expected

module _ {W : Type 0} where
  unfoldable pub set_state : FwState → Firmware W → Firmware W
  set_state s f = record f { state = s; routine_name = empty }

  raise_inappropriate : TransitionRoutine W → Firmware W → Outcome (Unit {0})
  raise_inappropriate r f = do
    msg ← compose_msg r.name f.state r.expected_states
    throw (runtime_error msg)

  -- The action has returned or has thrown: the deferred `SetState` runs. Where it does neither, the
  -- transition is never left.
  leave : FwState → Outcome (Unit {0}) → Firmware W → Outcome (Unit {0}) × Firmware W
  unfolding set_state
  leave final (ok u) f = (ok u, set_state final f)
  leave final (throw e) f = (throw e, set_state in_fault f)
  leave final fault f = (fault, f)
  leave final hang f = (hang, f)

  unfoldable pub do_transition : TransitionRoutine W → Exec (Firmware W) (Unit {0})
  unfolding check_state raise_inappropriate leave
  do_transition r f =
      if check_state f.state r.expected_states
      then (let g : Firmware W = record f { state = transition; routine_name = r.name } in
          let (result, w) = r.action f.world in leave r.final_state result (record g { world = w }))
      else (raise_inappropriate r f, f)

  unfoldable pub get_state_description : Firmware W → List ℕ
  unfolding state_to_str routine_str
  get_state_description f =
      if same_state f.state transition then routine_str f.routine_name else state_to_str f.state

  module _ (os : Os W) (dir : List ℕ) where
    abbrev pub reset_routine : TransitionRoutine W
    reset_routine = record {
      name = chip_resetting;
      action = chip_reset os dir;
      expected_states = boot ∷ running ∷ in_fault ∷ [];
      final_state = boot;
    }

    abbrev pub flash_routine : List ℕ → TransitionRoutine W
    flash_routine firmware = record {
      name = fw_flashing;
      action = bootloader_flash os dir firmware;
      expected_states = boot ∷ [];
      final_state = boot;
    }

    abbrev pub start_routine : TransitionRoutine W
    start_routine = record {
      name = fw_starting;
      action = bootloader_start os dir;
      expected_states = boot ∷ [];
      final_state = running;
    }

    unfoldable pub reset_chip : Exec (Firmware W) (Unit {0})
    unfolding do_transition
    reset_chip = do_transition reset_routine

    unfoldable pub flash_bootloader : List ℕ → Exec (Firmware W) (Unit {0})
    unfolding do_transition
    flash_bootloader firmware = do_transition (flash_routine firmware)

    unfoldable pub start_firmware : Exec (Firmware W) (Unit {0})
    unfolding do_transition
    start_firmware = do_transition start_routine
