-- ===== src/Server/Signals/Safety.antt =====
-- Src/Server.cpp: which thread may take which signal while `Run` starts the daemon, in every interleaving.
use roki_mb_daemon.Base.{
  ℕ, zero, suc, ◌<◌, ◌≡◌, ◌≢◌, refl, sym, ap, ◌∙◌, subst, Bool, true, false, not, ◌&&◌, ◌==◌,
  Bool-cases, inl, inr, update, arith,
}
use roki_mb_daemon.Server.Signals.{
  Signal, sigterm, sigint, other, SigSet, sig_block, sig_unblock, Process, pthread_sigmask,
  block_all_signals, start_thread, set_handler, sigfillset, Stage, entered, all_blocked,
  dispatch_runs, cleanup_runs, term_handled, int_handled, pausing, Boot, ending_signals, Step,
  block, start_dispatch, start_cleanup, handle_term, handle_int, unblock, thread_starts,
  thread_blocks, Reach, here, next, fresh,
}

update-elim :
    {A : Type 0} (P : A → Type 0) (f : ℕ → A) (i : ℕ) (a : A) (j : ℕ)
    → (i ≡ j → P a)
    → (i ≢ j → P (f j))
    → P (update f i a j)
update-elim P f i a j h k = elim (Bool-cases (i == j)) [
  | inl e ↦ rw e (h (ground arith))
  | inr e ↦ rw e (k (ground arith))
]

-- What the main thread blocks, and which signals have the handler, by where `Run` stands.
abbrev MainMask : Stage → SigSet → Type 0
MainMask entered mask = Unit
MainMask pausing mask = (s : Signal) → mask s ≡ not (ending_signals s)
MainMask _ mask = (s : Signal) → mask s ≡ true

abbrev Handlers : Stage → SigSet → Type 0
Handlers term_handled set = set sigterm ≡ true
Handlers int_handled set = (set sigterm ≡ true) × (set sigint ≡ true)
Handlers pausing set = (set sigterm ≡ true) × (set sigint ≡ true)
Handlers _ set = Unit

record IsSafe (b : Boot) : Type 0 where
  some_thread : 0 < b.threads
  alone : b.stage ≡ entered → b.threads ≡ 1
  others_block : (i : ℕ) (s : Signal) → 0 < i → i < b.threads → b.masks i s ≡ true
  main : MainMask b.stage (b.masks 0)
  set : Handlers b.stage b.handled

fresh-IsSafe : (mask : SigSet) → IsSafe (fresh mask)
fresh-IsSafe mask = record {
  some_thread = omega arith;
  alone = λ e. refl;
  others_block = λ i s h k. absurd (omega arith);
  main = tt;
  set = tt;
}

-- The masks of the other threads after a thread whose mask is full has started another.
others-start :
    (p : Process) (i : ℕ)
    → ((s : Signal) → p.masks i s ≡ true)
    → ((j : ℕ) (s : Signal) → 0 < j → j < p.threads → p.masks j s ≡ true)
    → (j : ℕ) (s : Signal) → 0 < j
    → j < suc p.threads
    → (start_thread i p).masks j s ≡ true
unfolding start_thread
others-start p i full others j s h k =
    update-elim (λ mask. mask s ≡ true) p.masks p.threads (p.masks i) j (λ e. full s)
      (λ n. others j s h (omega (arith, n)))

main-start : (p : Process) (i : ℕ) → 0 < p.threads → (start_thread i p).masks 0 ≡ p.masks 0
unfolding start_thread
main-start p i h =
    update-elim (λ mask. mask ≡ p.masks 0) p.masks p.threads (p.masks i) 0
      (λ e. absurd (omega (arith, e))) (λ n. refl)

-- A thread of the dispatcher or of a handler starts another, or blocks the signals once more.
starts-IsSafe :
    (b : Boot) (i : ℕ)
    → IsSafe b
    → 0 < i
    → i < b.threads
    → IsSafe (record b { process = start_thread i b.process })
unfolding start_thread
starts-IsSafe b i safe h k = record {
  some_thread = omega arith;
  alone = λ e. absurd (omega (arith, safe.alone e));
  others_block = others-start b.process i (λ s. safe.others_block i s h k) safe.others_block;
  main = subst (MainMask b.stage) (sym (main-start b.process i safe.some_thread)) safe.main;
  set = safe.set;
}

blocks-IsSafe :
    (b : Boot) (i : ℕ)
    → IsSafe b
    → 0 < i
    → IsSafe (record b { process = block_all_signals i b.process })
unfolding block_all_signals pthread_sigmask
blocks-IsSafe b i safe h = record {
  some_thread = safe.some_thread;
  alone = safe.alone;
  others_block = λ j s k l.
      update-elim (λ mask. mask s ≡ true) b.masks i (λ t. true) j (λ e. refl)
        (λ n. safe.others_block j s k l);
  main =
      subst (MainMask b.stage)
        (update-elim (λ mask. b.masks 0 ≡ mask) b.masks i (λ t. true) 0
          (λ e. absurd (omega (arith, e))) (λ n. refl))
        safe.main;
  set = safe.set;
}

module _ (b : Boot) (safe : IsSafe b) where
  blocked-IsSafe :
      b.stage ≡ entered
      → IsSafe (record {
        stage = all_blocked;
        process = pthread_sigmask sig_block sigfillset 0 b.process;
      })
  unfolding pthread_sigmask
  blocked-IsSafe e = record {
    some_thread = safe.some_thread;
    alone = λ q. cc;
    others_block = λ j s k l. absurd (omega (arith, safe.alone e));
    main = λ s. refl;
    set = tt;
  }

  started-IsSafe :
      (stage : Stage)
      → stage ≢ entered
      → MainMask stage ≡ (λ mask. (s : Signal) → mask s ≡ true)
      → ((s : Signal) → b.masks 0 s ≡ true)
      → Handlers stage b.handled
      → IsSafe (record { stage = stage; process = start_thread 0 b.process })
  unfolding start_thread
  started-IsSafe stage n same full set = record {
    some_thread = omega arith;
    alone = λ q. absurd (n q);
    others_block = others-start b.process 0 full safe.others_block;
    main =
        subst (λ M. M ((start_thread 0 b.process).masks 0)) (sym same)
          (λ s. ap (λ mask. mask s) (main-start b.process 0 safe.some_thread) ∙ full s);
    set = set;
  }

  unblocked-IsSafe :
      b.stage ≡ int_handled
      → IsSafe (record {
        stage = pausing;
        process = pthread_sigmask sig_unblock ending_signals 0 b.process;
      })
  unfolding pthread_sigmask
  unblocked-IsSafe e =
      let full : (s : Signal) → b.masks 0 s ≡ true =
        subst (λ t. MainMask t (b.masks 0)) e safe.main in
      record {
        some_thread = safe.some_thread;
        alone = λ q. cc;
        others_block = λ j s k l.
            update-elim (λ mask. mask s ≡ true) b.masks 0 _ j (λ q. absurd (omega (arith, q)))
              (λ n. safe.others_block j s k l);
        main = λ s. rw (full s) (unblock-one (ending_signals s));
        set = subst (λ t. Handlers t b.handled) e safe.set;
      }
    where
      unblock-one : (x : Bool) → (not x && true) ≡ not x
      unblock-one true = refl
      unblock-one false = refl

  handled-IsSafe :
      (stage : Stage) (s : Signal)
      → stage ≢ entered
      → MainMask stage (b.masks 0)
      → Handlers stage (set_handler s b.process).handled
      → IsSafe (record { stage = stage; process = set_handler s b.process })
  unfolding set_handler
  handled-IsSafe stage s n main set = record {
    some_thread = safe.some_thread;
    alone = λ q. absurd (n q);
    others_block = safe.others_block;
    main = main;
    set = set;
  }

Step-IsSafe : (b c : Boot) → IsSafe b → Step b c → IsSafe c
unfolding set_handler
Step-IsSafe b c safe (block e q) = subst IsSafe (sym q) (blocked-IsSafe b safe e)
Step-IsSafe b c safe (start_dispatch e q) = subst IsSafe (sym q) (
    started-IsSafe b safe dispatch_runs (λ q. cc) refl
      (subst (λ t. MainMask t (b.masks 0)) e safe.main) tt)
Step-IsSafe b c safe (start_cleanup e q) = subst IsSafe (sym q) (
    started-IsSafe b safe cleanup_runs (λ q. cc) refl
      (subst (λ t. MainMask t (b.masks 0)) e safe.main) tt)
Step-IsSafe b c safe (handle_term e q) = subst IsSafe (sym q) (
    handled-IsSafe b safe term_handled sigterm (λ q. cc)
      (subst (λ t. MainMask t (b.masks 0)) e safe.main) refl)
Step-IsSafe b c safe (handle_int e q) =
    let done : b.handled sigterm ≡ true = subst (λ t. Handlers t b.handled) e safe.set in
    subst IsSafe (sym q) (
      handled-IsSafe b safe int_handled sigint (λ q. cc)
        (subst (λ t. MainMask t (b.masks 0)) e safe.main) (done, refl))
Step-IsSafe b c safe (unblock e q) = subst IsSafe (sym q) (unblocked-IsSafe b safe e)
Step-IsSafe b c safe (thread_starts i h k q) = subst IsSafe (sym q) (starts-IsSafe b i safe h k)
Step-IsSafe b c safe (thread_blocks i h k q) = subst IsSafe (sym q) (blocks-IsSafe b i safe h)

Reach-IsSafe : (b c : Boot) → IsSafe b → Reach b c → IsSafe c
Reach-IsSafe b c safe here = safe
Reach-IsSafe b c safe (next r s) = Step-IsSafe _ c (Reach-IsSafe b _ safe r) s

ne_true : {x : Bool} → x ≡ true → x ≡ false → ⊥
ne_true t f = cc

open_to : (x : Bool) → not x ≡ false → x ≡ true
open_to true e = refl
open_to false e = cc

handled_of :
    (set : SigSet) (s : Signal)
    → ending_signals s ≡ true
    → set sigterm ≡ true
    → set sigint ≡ true
    → set s ≡ true
handled_of set sigterm e t i = t
handled_of set sigint e t i = i
handled_of set (other n) e t i = cc

taken_by_main :
    (stage : Stage) (mask set : SigSet) (s : Signal)
    → stage ≢ entered
    → MainMask stage mask
    → Handlers stage set
    → mask s ≡ false
    → (stage ≡ pausing) × (ending_signals s ≡ true) × (set s ≡ true)
taken_by_main entered mask set s n m h e = absurd (n refl)
taken_by_main all_blocked mask set s n m h e = absurd (ne_true (m s) e)
taken_by_main dispatch_runs mask set s n m h e = absurd (ne_true (m s) e)
taken_by_main cleanup_runs mask set s n m h e = absurd (ne_true (m s) e)
taken_by_main term_handled mask set s n m h e = absurd (ne_true (m s) e)
taken_by_main int_handled mask set s n m h e = absurd (ne_true (m s) e)
taken_by_main pausing mask set s n m (t, i) e =
    let ending = open_to (ending_signals s) (sym (m s) ∙ e) in
    (refl, ending, handled_of set s ending t i)

-- From `pthread_sigmask` on, in every interleaving of the start of the daemon: where a thread does not
-- block a signal, it is the main thread, which is then past its start; and the signal is `SIGTERM` or
-- `SIGINT` and has the handler that sets `DoShutdown`. So no signal that can be blocked ends the daemon
-- by default.
pub signals_safe :
    (mask : SigSet) (b : Boot) (i : ℕ) (s : Signal)
    → Reach (fresh mask) b
    → b.stage ≢ entered
    → i < b.threads
    → b.masks i s ≡ false
    → (i ≡ 0) × (b.stage ≡ pausing) × (ending_signals s ≡ true) × (b.handled s ≡ true)
signals_safe mask b zero s r n k e =
    let safe = Reach-IsSafe (fresh mask) b (fresh-IsSafe mask) r in
    let (stage, ending, set) =
      taken_by_main b.stage (b.masks 0) b.handled s n safe.main safe.set e in
    (refl, stage, ending, set)
signals_safe mask b (suc i) s r n k e =
    let safe = Reach-IsSafe (fresh mask) b (fresh-IsSafe mask) r in
    absurd (ne_true (safe.others_block (suc i) s (omega arith) k) e)
