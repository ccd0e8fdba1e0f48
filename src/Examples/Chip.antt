-- ===== src/Examples/Chip.antt =====
-- The firmware's state machine on concrete states.
use roki_mb_daemon.Base.{◌≡◌, refl, ok}
use roki_mb_daemon.HwUtils.{execute, chip_reset, bootloader_start}
use roki_mb_daemon.Firmware.{boot, in_fault}
use roki_mb_daemon.Firmware.Transitions.{
  Call, allowed, target, script, perform, Done, IsSettled, perform-allowed,
}
use roki_mb_daemon.Examples.{os, dir, firmware}

perform-allowed_example :
    Done
      (target Call.start)
      (script os dir Call.start 0).0
      (script os dir Call.start 0).1
      (firmware boot)
      (perform os dir Call.start (firmware boot))
unfolding allowed
perform-allowed_example = perform-allowed os dir Call.start (firmware boot) refl

firmware-IsSettled : IsSettled os dir (firmware in_fault)
firmware-IsSettled = ((λ e. cc), refl)

reset_ok : (script os dir Call.reset 0).0 ≡ ok tt
unfolding script chip_reset execute
reset_ok = refl

start_ok : (script os dir Call.start (script os dir Call.reset 0).1).0 ≡ ok tt
unfolding script chip_reset bootloader_start execute
start_ok = refl
