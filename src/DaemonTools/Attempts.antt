-- ===== src/DaemonTools/Attempts.antt =====
-- Src/DaemonTools.cpp: how often `Connect` tries.
use roki_mb_daemon.Base.{
  ℕ, zero, suc, ◌+◌, ◌≤◌, ◌<◌, ◌≡◌, refl, ◌∙◌, true, false, Exception, errno_exception, ok, List,
  ◌-◌, throw, Exec, arith, leb,
}
use roki_mb_daemon.DaemonTools.{eaddrinuse, is_running, attempt_loop, connect, connect_running}

module _ {W C : Type 0} (dummy : Exec W (Unit {0})) (attempt : Exec W C) (pause : W → W)
    (count : ℕ) where
  -- So many attempts in a row throw, with a pause after each, and take the world from one to the other.
  pub data Fails : ℕ → W → W → Type 0 where
    none_yet : {w : W} → Fails 0 w w
    once_more :
        {k : ℕ} {w w' u : W} (e : Exception)
        → attempt w ≡ (throw e, w')
        → Fails k (pause w') u
        → Fails (suc k) w u

  attempt_fails :
      (fuel i : ℕ) (w w' : W) (e : Exception)
      → attempt w ≡ (throw e, w')
      → i < count
      → attempt_loop dummy attempt pause count (suc fuel) i w
        ≡ attempt_loop dummy attempt pause count fuel (i + 1) (pause w')
  unfolding attempt_loop
  attempt_fails fuel i w w' e p h =
      let test : leb count i ≡ false = ground arith in rw (attempt_loop, p, test) refl

  last_fails :
      (fuel i : ℕ) (w w' : W) (e : Exception)
      → attempt w ≡ (throw e, w')
      → count ≤ i
      → attempt_loop dummy attempt pause count (suc fuel) i w ≡ (throw e, w')
  unfolding attempt_loop
  last_fails fuel i w w' e p h =
      let test : leb count i ≡ true = ground arith in rw (attempt_loop, p, test) refl

  attempt_succeeds :
      (fuel i : ℕ) (w w' : W) (c : C)
      → attempt w ≡ (ok c, w')
      → attempt_loop dummy attempt pause count (suc fuel) i w ≡ (ok c, w')
  unfolding attempt_loop
  attempt_succeeds fuel i w w' c p = rw (attempt_loop, p) refl

  -- The attempt after `k` failures, not yet the last, has the number `k`.
  attempt_loop_lem :
      (k fuel rounds i j : ℕ) (w u : W)
      → Fails k w u
      → rounds ≡ k + suc fuel
      → j ≡ i + k
      → j ≤ count
      → attempt_loop dummy attempt pause count rounds i w
        ≡ attempt_loop dummy attempt pause count (suc fuel) j u
  attempt_loop_lem zero fuel rounds i j w u none_yet e e' h =
      let r : rounds ≡ suc fuel = omega arith in let n : j ≡ i = omega arith in rw (r, n) refl
  attempt_loop_lem (suc k) fuel zero i j w u f e e' h = absurd (omega arith)
  attempt_loop_lem (suc k) fuel (suc rounds) i j w u (once_more x p f) e e' h =
      attempt_fails rounds i w _ x p (omega arith)
      ∙ attempt_loop_lem k fuel rounds (i + 1) j _ u f (omega arith) (omega arith) h

  -- What the attempt after `k` failures, not yet the last, does in `Connect`.
  connect_running_lem :
      (k : ℕ) (msg : List ℕ) (w₀ w u : W)
      → dummy w₀ ≡ (throw (errno_exception msg eaddrinuse), w)
      → Fails k w u
      → k ≤ count
      → connect dummy attempt pause count w₀
        ≡ attempt_loop dummy attempt pause count (suc (count - k)) k u
  unfolding connect connect_running is_running
  connect_running_lem k msg w₀ w u busy f h =
      rw busy (attempt_loop_lem k (count - k) (count + 1) 0 k w u f (omega arith) (omega arith) h)

  -- While the daemon's port is in use, `Connect` returns the connection of the first attempt that
  -- succeeds, where at most `count` attempts have failed before.
  pub connect_succeeds :
      (k : ℕ) (msg : List ℕ) (w₀ w u v : W) (c : C)
      → dummy w₀ ≡ (throw (errno_exception msg eaddrinuse), w)
      → Fails k w u
      → k ≤ count
      → attempt u ≡ (ok c, v)
      → connect dummy attempt pause count w₀ ≡ (ok c, v)
  connect_succeeds k msg w₀ w u v c busy f h p =
      connect_running_lem k msg w₀ w u busy f h ∙ attempt_succeeds (count - k) k u v c p

  -- While the daemon's port is in use and `count + 1` attempts fail, `Connect` throws what the last of
  -- them threw.
  pub connect_gives_up :
      (msg : List ℕ) (w₀ w u v : W) (e : Exception)
      → dummy w₀ ≡ (throw (errno_exception msg eaddrinuse), w)
      → Fails count w u
      → attempt u ≡ (throw e, v)
      → connect dummy attempt pause count w₀ ≡ (throw e, v)
  connect_gives_up msg w₀ w u v e busy f p =
      connect_running_lem count msg w₀ w u busy f (omega arith)
      ∙ last_fails (count - count) count u v e p (omega arith)
