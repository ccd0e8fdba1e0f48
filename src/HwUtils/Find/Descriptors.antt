-- ===== src/HwUtils/Find/Descriptors.antt =====
-- Src/HwUtils.cpp: which ends of its pipe `BootloaderFind` leaves open.
use roki_mb_daemon.Base.{
  ℕ, zero, suc, ◌≡◌, refl, ◌∙◌, ap, subst, ◌+◌, ◌⊎◌, inl, inr, Bool, true, List, [], ◌∷◌, Option,
  none, some, ◌==◌, Outcome, ok, throw, fault, hang, Exec, resume, str, Option-cases, resume-Keeps,
  if-Keeps,
}
use roki_mb_daemon.Streams.{RecvResult, received, recv_failed}
use roki_mb_daemon.Sockets.Descriptors.{release, release_newest, release_second}
use roki_mb_daemon.HwUtils.{
  Os, ProcessEnd, exited, exec_shell, execute_child_routine, execute, python_run,
}
use roki_mb_daemon.HwUtils.Find.{
  Filling, fill_size, fill_round, fill_with, fill_loop, fill_string_from_fd, finish_find, find_in,
  bootloader_find,
}

-- The open descriptors after `pipe`.
abbrev pub opened_ends : ℕ ⊎ (ℕ × ℕ) → List ℕ → List ℕ
opened_ends (inl e) fds = fds
opened_ends (inr (r, p)) fds = r ∷ p ∷ fds

module _ {W : Type 0} (os : Os W) (held : W → List ℕ)
    (fork_held : (w : W) → held (os.fork w).1 ≡ held w)
    (dup2_held : (fd : ℕ) (w : W) → held (os.dup2 fd w).1 ≡ held w)
    (wait_held : (w : W) → held (os.wait w).1 ≡ held w)
    (sh_held : (cmd : List ℕ) (w : W) → held (os.sh cmd w).1 ≡ held w)
    (close_held : (fd : ℕ) (w : W) → held (os.close fd w) ≡ release fd (held w)) where
  exec_shell-held : (cmd : List ℕ) (w : W) → held (exec_shell os cmd w).1 ≡ held w
  unfolding exec_shell
  exec_shell-held cmd w = elim (Option-cases (os.sh cmd w).0) [
    | inl e ↦ rw (e, exec_shell) (sh_held cmd w)
    | inr (x, e) ↦ rw (e, exec_shell) (sh_held cmd w)
  ]

  redirected-held :
      (cmd : List ℕ) (r : Option ℕ × W)
      → held
          (elim r.0 as (λ _. ProcessEnd × W) [
            | none ↦ exec_shell os cmd r.1
            | some e ↦ (exited 1, r.1)
          ]).1
        ≡ held r.1
  redirected-held cmd (none, w) = exec_shell-held cmd w
  redirected-held cmd (some e, w) = refl

  child-held : (cmd : List ℕ) (fd : ℕ) (w : W) → held (execute_child_routine os cmd fd w).1 ≡ held w
  unfolding execute_child_routine
  child-held cmd fd w =
      if-Keeps held (fd == 1) (exec_shell os cmd w) _ (held w) (exec_shell-held cmd w)
        (redirected-held cmd (os.dup2 fd w) ∙ dup2_held fd w)

  -- `Execute` with `closeFd`, by the error of `fork`: where no child can be created, it throws and
  -- nothing is closed.
  abbrev Ran : Option ℕ → ℕ → List ℕ → Outcome (Unit {0}) × W → Type 0
  Ran none fd fds (r, w) = held w ≡ release fd fds
  Ran (some x) fd fds (throw e, w) = held w ≡ fds
  Ran (some x) fd fds (r, w) = ⊥

  execute-Ran :
      (cmd : List ℕ) (fd : ℕ) (w : W) → Ran (os.fork w).0 fd (held w) (execute os cmd fd true w)
  unfolding execute
  execute-Ran cmd fd w =
      let child = execute_child_routine os cmd fd (os.fork w).1 in
      let after : W = (os.wait child.1).1 in
      let same : held after ≡ held w =
        wait_held child.1 ∙ (child-held cmd fd (os.fork w).1 ∙ fork_held w) in
      elim (Option-cases (os.fork w).0) [
        | inl e ↦ rw (e, execute) (close_held fd after ∙ ap (release fd) same)
        | inr (x, e) ↦ rw (e, execute) (fork_held w)
      ]

  module _ (signed : Bool) (before : ℕ) (read_end : ℕ → ℕ → W → RecvResult × W)
      (read_held : (fd k : ℕ) (w : W) → held (read_end fd k w).1 ≡ held w) where
    fill_with-held :
        (again : Filling → Exec W (List ℕ)) (r : RecvResult) (f : Filling) (w : W)
        → ((f : Filling) (w : W) → held (again f w).1 ≡ held w)
        → (fd : ℕ) → held (fill_with signed before (read_end fd) again r f w).1 ≡ held w
    unfolding fill_with
    fill_with-held again (recv_failed e) f w k fd = refl
    fill_with-held again (received []) f w k fd = refl
    fill_with-held again (received (b ∷ bs)) f w k fd =
        resume-Keeps held (fill_round signed before (b ∷ bs) f) again k w

    fill_loop-held :
        (fd fuel : ℕ) (f : Filling) (w : W)
        → held (fill_loop signed before (read_end fd) fuel f w).1 ≡ held w
    unfolding fill_loop
    fill_loop-held fd zero f w = refl
    fill_loop-held fd (suc fuel) f w =
        let got = read_end fd (fill_size + 1) w in
        fill_with-held (fill_loop signed before (read_end fd) fuel) got.0 f got.1
          (λ g v. fill_loop-held fd fuel g v) fd
        ∙ read_held fd (fill_size + 1) w

    fill-held :
        (fd fuel : ℕ) (w : W)
        → held (fill_string_from_fd signed before (read_end fd) fuel w).1 ≡ held w
    unfolding fill_string_from_fd
    fill-held fd fuel w = fill_loop-held fd fuel _ w

    -- What is left of a pipe with the ends `r` and `p`, where a child was created.
    abbrev pub Closed : ℕ → List ℕ → Outcome (List ℕ) × W → Type 0
    Closed r fds (ok dst, w) = held w ≡ fds
    Closed r fds (throw x, w) = held w ≡ r ∷ fds
    Closed r fds (fault, w) = Unit
    Closed r fds (hang, w) = Unit

    -- The call throws, and these descriptors are open after it.
    abbrev pub Throws : List ℕ → Outcome (List ℕ) × W → Type 0
    Throws fds (throw x, w) = held w ≡ fds
    Throws fds (r, w) = ⊥

    -- What is left of the pipe, by the error of `fork` and by what `pipe` gave.
    abbrev pub Left : Option ℕ → ℕ ⊎ (ℕ × ℕ) → List ℕ → Outcome (List ℕ) × W → Type 0
    Left forked (inl e) fds x = Throws fds x
    Left none (inr (r, p)) fds x = Closed r fds x
    Left (some e) (inr (r, p)) fds x = Throws (r ∷ p ∷ fds) x

    finished :
        (r : ℕ) (fds : List ℕ) (x : Outcome (List ℕ) × W)
        → held x.1 ≡ r ∷ fds
        → Closed r fds (finish_find signed before read_end os r x)
    unfolding finish_find
    finished r fds (ok dst, w) h = close_held r w ∙ (ap (release r) h ∙ release_newest r fds)
    finished r fds (throw x, w) h = h
    finished r fds (fault, w) h = tt
    finished r fds (hang, w) h = tt

    script_ran :
        (forked : Option ℕ) (r p fuel : ℕ) (fds : List ℕ) (x : Outcome (Unit {0}) × W)
        → Ran forked p (r ∷ p ∷ fds) x
        → Left forked (inr (r, p)) fds (
            finish_find signed before read_end os r
              (resume x.0 (λ _. fill_string_from_fd signed before (read_end r) fuel) x.1))
    unfolding finish_find
    script_ran none r p fuel fds (ok u, w) h =
        finished r fds (fill_string_from_fd signed before (read_end r) fuel w)
          (fill-held r fuel w ∙ (h ∙ release_second p r fds))
    script_ran none r p fuel fds (throw x, w) h = h ∙ release_second p r fds
    script_ran none r p fuel fds (fault, w) h = tt
    script_ran none r p fuel fds (hang, w) h = tt
    script_ran (some e) r p fuel fds (ok u, w) h = absurd h
    script_ran (some e) r p fuel fds (throw x, w) h = h
    script_ran (some e) r p fuel fds (fault, w) h = absurd h
    script_ran (some e) r p fuel fds (hang, w) h = absurd h

    found :
        (dir : List ℕ) (fuel : ℕ) (ends : ℕ ⊎ (ℕ × ℕ)) (fds : List ℕ) (w : W)
        → held w ≡ opened_ends ends fds
        → Left (os.fork w).0 ends fds (find_in signed before read_end os dir fuel ends w)
    unfolding find_in
    found dir fuel (inl e) fds w h = h
    found dir fuel (inr (r, p)) fds w h =
        let cmd : List ℕ = python_run dir (str "BootloaderFind.py") in
        script_ran (os.fork w).0 r p fuel fds (execute os cmd p true w)
          (subst (λ l. Ran (os.fork w).0 p l (execute os cmd p true w)) h (execute-Ran cmd p w))

    -- `BootloaderFind` closes both ends of its pipe where it returns. Where it throws, and `fork` gave a
    -- child, just the end for reading stays open. Where `fork` fails it throws, and both ends stay open;
    -- where `pipe` fails it throws, and nothing is open. Where it is undefined or never returns, nothing
    -- is said. Only `pipe` and `close` change the open descriptors of the daemon.
    pub bootloader_find-Left :
        (dir : List ℕ) (fuel : ℕ) (open_pipe : W → (ℕ ⊎ (ℕ × ℕ)) × W)
        → ((w : W) → held (open_pipe w).1 ≡ opened_ends (open_pipe w).0 (held w))
        → (w : W)
        → Left
            (os.fork (open_pipe w).1).0
            (open_pipe w).0
            (held w)
            (bootloader_find signed before read_end os dir fuel open_pipe w)
    unfolding bootloader_find
    bootloader_find-Left dir fuel open_pipe opens w =
        found dir fuel (open_pipe w).0 (held w) (open_pipe w).1 (opens w)
