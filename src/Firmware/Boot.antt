-- ===== src/Firmware/Boot.antt =====
-- Src/FirmwareFSM.cpp: the constructor of the state machine, which resets the chip and looks for its
-- port.
use roki_mb_daemon.Base.{
  ℕ, ◌≡◌, refl, ◌⊎◌, inl, inr, Bool, List, [], Outcome, ok, throw, fault, hang, Exec, resume,
  then_do, Outcome-cases,
}
use roki_mb_daemon.Streams.{RecvResult}
use roki_mb_daemon.HwUtils.{Os, chip_reset}
use roki_mb_daemon.HwUtils.Find.{bootloader_find}
use roki_mb_daemon.Firmware.{
  boot, empty, Firmware, reset_chip, do_transition, check_state, check_from, leave, set_state,
}

module _ {W : Type 0} where
  -- The members before the body of the constructor.
  abbrev pub initial : W → Firmware W
  initial w = record { state = boot; routine_name = empty; mb_port = []; world = w }

  -- `MbPort = HwUtils::BootloaderFind();`, which runs in the world of `f`.
  unfoldable pub assign_port : Outcome (List ℕ) × W → Firmware W → Outcome (Firmware W) × W
  assign_port (ok port, w) f = (ok (record f { mb_port = port; world = w }), w)
  assign_port (throw e, w) f = (throw e, w)
  assign_port (fault, w) f = (fault, w)
  assign_port (hang, w) f = (hang, w)

  module _ (signed : Bool) (before : ℕ) (read_end : ℕ → ℕ → W → RecvResult × W)
      (open_pipe : W → (ℕ ⊎ (ℕ × ℕ)) × W) (fuel : ℕ) (os : Os W) (dir : List ℕ) where
    abbrev pub find_port : Exec W (List ℕ)
    find_port = bootloader_find signed before read_end os dir fuel open_pipe

    after_reset : Outcome (Unit {0}) → Firmware W → Outcome (Firmware W) × W
    unfolding assign_port
    after_reset (ok u) f = assign_port (find_port f.world) f
    after_reset (throw e) f = (throw e, f.world)
    after_reset fault f = (fault, f.world)
    after_reset hang f = (hang, f.world)

    -- An exception leaves no object behind, but the world has changed.
    unfoldable pub construct : Exec W (Firmware W)
    unfolding after_reset
    construct w = let (result, f) = reset_chip os dir (initial w) in after_reset result f

    -- The firmware that is on port `port`, not started.
    abbrev pub ready : List ℕ → Exec W (Firmware W)
    ready port w =
        (ok (record { state = boot; routine_name = empty; mb_port = port; world = w }), w)

    by_port : (r : Outcome (List ℕ) × W) (w : W) → assign_port r (initial w) ≡ resume r.0 ready r.1
    unfolding assign_port
    by_port (ok port, w') w = refl
    by_port (throw e, w') w = refl
    by_port (fault, w') w = refl
    by_port (hang, w') w = refl

    -- The constructor is a reset of the chip and then the search for its port: it throws what either
    -- throws, and what it builds is settled in the state `boot`, has the port that was found and the
    -- world after both.
    pub construct-ready :
        (w : W) → construct w ≡ then_do (chip_reset os dir) (λ _. then_do find_port ready) w
    unfolding construct after_reset assign_port reset_chip do_transition check_state check_from
        leave set_state
    construct-ready w = elim (Outcome-cases (chip_reset os dir w).0) [
      | inl (u, e) ↦ rw e (by_port (find_port (chip_reset os dir w).1) (chip_reset os dir w).1)
      | inr (inl (x, e)) ↦ rw e refl
      | inr (inr (inl e)) ↦ rw e refl
      | inr (inr (inr e)) ↦ rw e refl
    ]
