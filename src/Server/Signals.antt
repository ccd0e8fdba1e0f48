-- ===== src/Server/Signals.antt =====
-- Src/Server.cpp, Src/Helpers.cpp: the masks and handlers of signals while `Run` starts the daemon.
pub mod Safety
use roki_mb_daemon.Base.{
  ℕ, zero, suc, ◌+◌, ◌≡◌, ◌<◌, refl, sym, ap, ◌∙◌, Bool, true, false, not, ◌&&◌, ◌||◌, List, [],
  ◌∷◌, ◌==◌, if◌then◌else◌, update, arith,
}

-- The two signals that end the daemon in good order, and the others.
pub data Signal : Type 0 where
  sigterm sigint : Signal
  other : ℕ → Signal

abbrev pub SigSet : Type 0
SigSet = Signal → Bool

abbrev same_signal : Signal → Signal → Bool
same_signal sigterm sigterm = true
same_signal sigint sigint = true
same_signal (other a) (other b) = a == b
same_signal a b = false

abbrev pub sigfillset : SigSet
sigfillset s = true

abbrev pub sigemptyset : SigSet
sigemptyset s = false

abbrev sigaddset : SigSet → Signal → SigSet
sigaddset set s t = same_signal s t || set t

-- What `pthread_sigmask` does with the set.
pub data How : Type 0 where
  sig_block sig_unblock : How

-- The threads 0 to `threads - 1`, the main thread being 0, with the signals that each blocks; and the
-- signals that have the handler of `Run`, which sets `DoShutdown`.
pub record Process : Type 0 where
  pub threads : ℕ
  pub masks : ℕ → SigSet
  pub handled : SigSet

abbrev masked : How → SigSet → SigSet → SigSet
masked sig_block set mask s = set s || mask s
masked sig_unblock set mask s = not (set s) && mask s

-- `pthread_sigmask` in the thread `i`.
unfoldable pub pthread_sigmask : How → SigSet → ℕ → Process → Process
pthread_sigmask how set i p = record p { masks = update p.masks i (masked how set (p.masks i)) }

-- `SetSigMask`.
unfoldable pub set_sig_mask : How → ℕ → Process → Process
unfolding pthread_sigmask
set_sig_mask how i p = pthread_sigmask how sigfillset i p

-- `BlockAllSignals`.
unfoldable pub block_all_signals : ℕ → Process → Process
unfolding pthread_sigmask
block_all_signals i p = pthread_sigmask sig_block sigfillset i p

-- A new thread has the mask of the thread that starts it.
unfoldable pub start_thread : ℕ → Process → Process
start_thread i p = record p {
  threads = suc p.threads;
  masks = update p.masks p.threads (p.masks i);
}

-- `std::signal(s, handler)`.
unfoldable pub set_handler : Signal → Process → Process
set_handler s p = record p { handled = sigaddset p.handled s }

-- Where `Run` stands.
pub data Stage : Type 0 where
  entered all_blocked dispatch_runs cleanup_runs term_handled int_handled pausing : Stage

pub record Boot : Type 0 where
  pub stage : Stage
  pub process : Process
  pub open process use {threads, masks, handled}

abbrev pub ending_signals : SigSet
ending_signals = sigaddset (sigaddset sigemptyset sigterm) sigint

-- A step of `Run` up to its `pause()`, or one of another thread: it starts a thread or blocks the signals.
pub data Step (b c : Boot) : Type 0 where
  block :
      b.stage ≡ entered
      → c
        ≡ record { stage = all_blocked; process = pthread_sigmask sig_block sigfillset 0 b.process }
      → Step b c
  start_dispatch :
      b.stage ≡ all_blocked
      → c ≡ record { stage = dispatch_runs; process = start_thread 0 b.process }
      → Step b c
  start_cleanup :
      b.stage ≡ dispatch_runs
      → c ≡ record { stage = cleanup_runs; process = start_thread 0 b.process }
      → Step b c
  handle_term :
      b.stage ≡ cleanup_runs
      → c ≡ record { stage = term_handled; process = set_handler sigterm b.process }
      → Step b c
  handle_int :
      b.stage ≡ term_handled
      → c ≡ record { stage = int_handled; process = set_handler sigint b.process }
      → Step b c
  unblock :
      b.stage ≡ int_handled
      → c ≡ record {
        stage = pausing;
        process = pthread_sigmask sig_unblock ending_signals 0 b.process;
      }
      → Step b c
  thread_starts :
      (i : ℕ)
      → 0 < i
      → i < b.threads
      → c ≡ record b { process = start_thread i b.process }
      → Step b c
  thread_blocks :
      (i : ℕ)
      → 0 < i
      → i < b.threads
      → c ≡ record b { process = block_all_signals i b.process }
      → Step b c

pub data Reach (b : Boot) : Boot → Type 0 where
  here : Reach b b
  next : {c d : Boot} → Reach b c → Step c d → Reach b d

-- The process when `Run` is called, with one thread.
abbrev pub fresh : SigSet → Boot
fresh mask = record {
  stage = entered;
  process = record { threads = 1; masks = λ i. mask; handled = sigemptyset };
}
