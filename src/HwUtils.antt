-- ===== src/HwUtils.antt =====
-- Src/HwUtils.cpp: the scripts that drive the chip, run through `/bin/sh`. The operating system is
-- a parameter: `fork`, `dup2`, `execl`, `wait` and `close` answer as `Os` says, and a script changes the
-- world `W` in a way that the model does not look into.
pub mod Returns
pub mod Find
pub mod FindLaws
use roki_mb_daemon.Base.{
  ℕ, zero, suc, ◌+◌, String, Option, none, some, Bool, true, false, List, [], ◌∷◌, ◌++◌, ltb, ◌==◌,
  if◌then◌else◌, Exception, runtime_error, errno_exception, Outcome, ok, throw, fault, hang, Exec,
  then_do, str, to_string, length, take, drop,
}

-- How a child process ended, as `wait` reports it.
pub data ProcessEnd : Type 0 where
  signaled : ProcessEnd
  exited : ℕ → ProcessEnd

pub record Os (W : Type 0) : Type 0 where
  -- `some e`: the call failed with `errno == e`.
  pub fork : W → Option ℕ × W
  pub dup2 : ℕ → W → Option ℕ × W
  pub wait : W → Option ℕ × W
  -- `none`: `execl` returned. Otherwise how the shell with this command ended.
  pub sh : List ℕ → W → Option ProcessEnd × W
  pub close : ℕ → W → W

abbrev stdout_fileno : ℕ
stdout_fileno = 1

-- `WIFEXITED` and `WEXITSTATUS` of the status.
check_status : ProcessEnd → Outcome (Unit {0})
check_status signaled = throw (runtime_error (str "Execute: Flashing script terminated abnormally"))
check_status (exited zero) = ok tt
check_status (exited (suc c)) =
    throw (
      runtime_error
        (str "Execute: Flashing script exited with non-zero code " ++ to_string (suc c)))

collect : ProcessEnd → Option ℕ → Outcome (Unit {0})
unfolding check_status
collect end (some e) = throw (errno_exception (str "Execute: Failed to wait for child") e)
collect end none = check_status end

-- `PYTHON_RUN(script)`, with the build's directory of scripts.
pub python_run : List ℕ → List ℕ → List ℕ
python_run dir script = str "python3 " ++ (dir ++ (script ++ str " "))

module _ {W : Type 0} (os : Os W) where
  -- The child replaces itself by the shell; `exit(1)` where it cannot.
  exec_shell : List ℕ → W → ProcessEnd × W
  exec_shell cmd w =
      let (ran, w') = os.sh cmd w in elim ran [ none ↦ (exited 1, w') | some end ↦ (end, w') ]

  pub execute_child_routine : List ℕ → ℕ → W → ProcessEnd × W
  unfolding exec_shell
  execute_child_routine cmd out_fd w =
      if out_fd == stdout_fileno
      then exec_shell cmd w
      else let (failed, w') = os.dup2 out_fd w in
        elim failed [ none ↦ exec_shell cmd w' | some e ↦ (exited 1, w') ]

  unfoldable pub execute : List ℕ → ℕ → Bool → Exec W (Unit {0})
  unfolding execute_child_routine collect
  execute cmd out_fd close_fd w =
      let (failed, w') = os.fork w in
      let (end, w'') = execute_child_routine cmd out_fd w' in
      let (lost, w''') = os.wait w'' in
      elim failed [
        | some e ↦ (throw (errno_exception (str "Execute: Failed to create child process") e), w')
        | none ↦ (collect end lost, if close_fd then os.close out_fd w''' else w''')
      ]

  module _ (dir : List ℕ) where
    unfoldable pub chip_reset : Exec W (Unit {0})
    unfolding execute
    chip_reset = execute (python_run dir (str "BootloaderReset.py")) stdout_fileno false

    unfoldable pub bootloader_flash : List ℕ → Exec W (Unit {0})
    unfolding execute
    bootloader_flash firmware =
        execute (python_run dir (str "BootloaderFlash.py") ++ firmware) stdout_fileno false

    unfoldable pub bootloader_start : Exec W (Unit {0})
    unfolding execute
    bootloader_start = execute (python_run dir (str "BootloaderStart.py")) stdout_fileno false
