-- ===== src/Firmware/Transitions.antt =====
-- Src/FirmwareFSM.cpp: which calls the state machine accepts, and where each leaves it.
use roki_mb_daemon.Base.{
  ℕ, ◌≡◌, ◌≢◌, ◌⊎◌, inl, inr, refl, Bool, true, false, List, [], ◌∷◌, Exception, runtime_error,
  Outcome, ok, throw, Exec, arith, Bool-cases,
}
use roki_mb_daemon.HwUtils.{Os, chip_reset, bootloader_flash, bootloader_start}
use roki_mb_daemon.HwUtils.Returns.{
  Returns, chip_reset-Returns, bootloader_start-Returns, bootloader_flash-Returns,
}
use roki_mb_daemon.Firmware.{
  FwState, boot, running, transition, in_fault, empty, Firmware, TransitionRoutine, check_state,
  check_from, compose_msg, inappropriate, do_transition, raise_inappropriate, leave, set_state,
  chip_resetting, fw_flashing, fw_starting, reset_routine, flash_routine, start_routine, reset_chip,
  flash_bootloader, start_firmware,
}

-- The public operations.
pub data Call : Type 0 where
  reset start : Call
  flash : List ℕ → Call

-- The table of the state machine, written apart from the code.
unfoldable pub allowed : Call → FwState → Bool
allowed reset transition = false
allowed reset s = true
allowed start boot = true
allowed start s = false
allowed (flash path) boot = true
allowed (flash path) s = false

unfoldable pub target : Call → FwState
target reset = boot
target start = running
target (flash path) = boot

-- What an accepted transition does, from the result and the world of its action.
abbrev pub Done :
    {W : Type 0}
    → FwState
    → Outcome (Unit {0})
    → W
    → Firmware W
    → Outcome (Unit {0}) × Firmware W
    → Type 0
Done final result w f (r, g) =
    (r ≡ result)
    × (g.world ≡ w)
    × (g.routine_name ≡ empty)
    × (g.mb_port ≡ f.mb_port)
    × (((result ≡ ok tt) × (g.state ≡ final))
        ⊎ ((e : Exception) × (result ≡ throw e) × (g.state ≡ in_fault)))

leave-Done :
    {W : Type 0} (final : FwState) (result : Outcome (Unit {0})) (f : Firmware W)
    → Returns result
    → Done final result f.world f (leave final result f)
unfolding leave set_state
leave-Done final result f (inl e) = rw (e, leave) (refl, refl, refl, refl, inl (refl, refl))
leave-Done final result f (inr (x, e)) = rw (e, leave) (refl, refl, refl, refl, inr (x, refl, refl))

do_transition-Done :
    {W : Type 0} (r : TransitionRoutine W) (f : Firmware W)
    → check_state f.state r.expected_states ≡ true
    → Returns (r.action f.world).0
    → Done r.final_state (r.action f.world).0 (r.action f.world).1 f (do_transition r f)
unfolding do_transition leave set_state
do_transition-Done r f c h = rw c (leave-Done r.final_state _ _ h)

module _ {W : Type 0} (os : Os W) (dir : List ℕ) where
  unfoldable pub script : Call → Exec W (Unit {0})
  script reset = chip_reset os dir
  script start = bootloader_start os dir
  script (flash path) = bootloader_flash os dir path

  unfoldable pub perform : Call → Exec (Firmware W) (Unit {0})
  perform reset = reset_chip os dir
  perform start = start_firmware os dir
  perform (flash path) = flash_bootloader os dir path

  pub script-Returns : (c : Call) (w : W) → Returns (script c w).0
  unfolding script
  script-Returns reset w = chip_reset-Returns os dir w
  script-Returns start w = bootloader_start-Returns os dir w
  script-Returns (flash path) w = bootloader_flash-Returns os dir w path

  pub message : Call → FwState → List ℕ
  message reset s = inappropriate chip_resetting s boot (running ∷ in_fault ∷ [])
  message start s = inappropriate fw_starting s boot []
  message (flash path) s = inappropriate fw_flashing s boot []

  -- A call that the table forbids throws, runs no script and changes nothing.
  pub perform_forbidden :
      (c : Call) (f : Firmware W)
      → allowed c f.state ≡ false
      → perform c f ≡ (throw (runtime_error (message c f.state)), f)
  unfolding perform allowed message do_transition compose_msg reset_chip start_firmware
      flash_bootloader raise_inappropriate check_state check_from
  perform_forbidden reset f h = ground arith
  perform_forbidden start f h = ground arith
  perform_forbidden (flash path) f h = ground arith

  -- A call in a state that the table allows has the result of its script, which has run once; then no
  -- routine is named, and the state is the target, or `in_fault` if the script threw.
  pub perform-allowed :
      (c : Call) (f : Firmware W)
      → allowed c f.state ≡ true
      → let (result, w) = script c f.world in Done (target c) result w f (perform c f)
  unfolding perform allowed reset_chip start_firmware flash_bootloader script target check_state
  perform-allowed reset f h =
      do_transition-Done (reset_routine os dir) f (ground arith) (script-Returns reset f.world)
  perform-allowed start f h =
      do_transition-Done (start_routine os dir) f (ground arith) (script-Returns start f.world)
  perform-allowed (flash path) f h =
      do_transition-Done (flash_routine os dir path) f (ground arith)
        (script-Returns (flash path) f.world)

  -- No call is in flight.
  abbrev pub IsSettled : Firmware W → Type 0
  IsSettled f = (f.state ≢ transition) × (f.routine_name ≡ empty)

  -- From a settled state every call, whatever its script does, leaves a settled state: the machine
  -- never stays in `transition`.
  pub perform-IsSettled : (c : Call) (f : Firmware W) → IsSettled f → IsSettled (perform c f).1
  unfolding target
  perform-IsSettled c f h = elim (Bool-cases (allowed c f.state)) [
    | inl yes_ ↦ settled c (perform-allowed c f yes_)
    | inr no_ ↦ rw (perform_forbidden c f no_) h
  ]
    where
      settled :
          (c : Call)
          → Done (target c) (script c f.world).0 (script c f.world).1 f (perform c f)
          → IsSettled (perform c f).1
      settled reset d = ground arith
      settled start d = ground arith
      settled (flash path) d = ground arith

  perform_ok :
      (c : Call) (f : Firmware W)
      → allowed c f.state ≡ true
      → (script c f.world).0 ≡ ok tt
      → ((perform c f).1.state ≡ target c) × ((perform c f).1.world ≡ (script c f.world).1)
  perform_ok c f h p =
      let (_, w, _, _, ends) = perform-allowed c f h in
      elim ends [ inl (_, s) ↦ (s, w) | inr (_, q, _) ↦ cc ]

  -- From every settled state, the fault state too, a reset and a start whose scripts succeed leave
  -- the firmware running.
  pub reset-start-running :
      (f : Firmware W)
      → IsSettled f
      → (script reset f.world).0 ≡ ok tt
      → (script start (script reset f.world).1).0 ≡ ok tt
      → (perform start (perform reset f).1).1.state ≡ running
  unfolding target allowed
  reset-start-running f h p q =
      let (s, w) = perform_ok reset f (ground arith) p in
      let g : Firmware W = (perform reset f).1 in (perform_ok start g (rw s refl) (rw w q)).0
