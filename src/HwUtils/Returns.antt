-- ===== src/HwUtils/Returns.antt =====
-- Src/HwUtils.cpp: how running a script can end.
use roki_mb_daemon.Base.{
  str, ◌++◌, ℕ, zero, suc, ◌≡◌, ◌⊎◌, inl, inr, refl, List, Bool, false, Option, none, some,
  Exception, Outcome, ok, throw, Option-cases,
}
use roki_mb_daemon.HwUtils.{
  Os, ProcessEnd, signaled, exited, collect, execute, python_run, chip_reset, bootloader_start,
  bootloader_flash,
}

-- A call that comes back, with a value or an exception.
abbrev pub Returns : Outcome (Unit {0}) → Type 0
Returns r = (r ≡ ok tt) ⊎ ((e : Exception) × (r ≡ throw e))

collect-Returns : (end : ProcessEnd) (lost : Option ℕ) → Returns (collect end lost)
unfolding collect
collect-Returns signaled none = inr (_, refl)
collect-Returns (exited zero) none = inl refl
collect-Returns (exited (suc c)) none = inr (_, refl)
collect-Returns end (some e) = inr (_, refl)

module _ {W : Type 0} (os : Os W) (cmd : List ℕ) (out_fd : ℕ) (close_fd : Bool) (w : W) where
  pub execute-Returns : Returns (execute os cmd out_fd close_fd w).0
  unfolding execute
  execute-Returns = elim (Option-cases (os.fork w).0) [
    | inl e ↦ rw (e, execute) (collect-Returns _ _)
    | inr (x, e) ↦ rw (e, execute) (inr (_, refl))
  ]

module _ {W : Type 0} (os : Os W) (dir : List ℕ) (w : W) where
  pub chip_reset-Returns : Returns (chip_reset os dir w).0
  unfolding chip_reset
  chip_reset-Returns = execute-Returns os (python_run dir (str "BootloaderReset.py")) 1 false w

  pub bootloader_start-Returns : Returns (bootloader_start os dir w).0
  unfolding bootloader_start
  bootloader_start-Returns =
      execute-Returns os (python_run dir (str "BootloaderStart.py")) 1 false w

  pub bootloader_flash-Returns : (path : List ℕ) → Returns (bootloader_flash os dir path w).0
  unfolding bootloader_flash
  bootloader_flash-Returns path =
      execute-Returns os (python_run dir (str "BootloaderFlash.py") ++ path) 1 false w
