-- ===== src/Server/Threads.antt =====
-- Src/Server.cpp: the threads that dispatch connections, handle them, join the handlers, and shut down,
-- in every interleaving. A step is what a thread does between two points at which another can act.
-- `JoinablesMutex` is held where `holds` says so. `CurrentId` does not wrap here. The loop of `Run` over
-- `Handlers`, which reads them without the mutex, is left out: a cancelled handler takes a step `finish`.
pub mod Invariant
pub mod Joins
pub mod Shutdown
pub mod Lost
pub mod Races
use roki_mb_daemon.Base.{
  ℕ, ◌+◌, ◌≡◌, ◌⊎◌, Bool, true, false, List, [], ◌∷◌, ◌++◌, ◌==◌, if◌then◌else◌, update,
}

-- How far the thread of a handler is. `starting`: it has not set `ready`. `finished`: its `Defer` has
-- pushed its id, and nothing is left but to return.
pub data Phase : Type 0 where
  absent starting serving finished joined : Phase

-- Where `DispatchRoutine` stands, with the id that it has taken.
pub data Dispatch : Type 0 where
  -- It has passed the test of the loop.
  accepting : Dispatch
  -- In `CreateHandlerSocket`, or before the constructor of the thread.
  creating : ℕ → Dispatch
  -- The thread runs, and `Handlers` does not have it yet.
  spawned : ℕ → Dispatch
  -- Before a test of the predicate of `readyCond.wait`.
  waiting : ℕ → Dispatch
  -- The predicate was false, and the thread does not sleep yet.
  unready : ℕ → Dispatch
  asleep : ℕ → Dispatch
  stopped : Dispatch
  -- A handler has written to `ready` after the frame that has it was unwound.
  undefined : Dispatch

-- Where `CleanupRoutine` stands. `watching`: before a test of the predicate of `ReadyToJoin.wait`, which
-- takes the mutex. `drowsy`: the predicate was false, and the thread does not sleep yet. `dozing`: it
-- sleeps. `joining`: in the inner loop. `crashed`: an exception has left the function.
pub data Cleanup : Type 0 where
  watching drowsy dozing joining left crashed : Cleanup

pub record Pool : Type 0 where
  pub do_shutdown : Bool
  pub current_id : ℕ
  pub phases : ℕ → Phase
  -- The ids that `Handlers` has.
  pub registered : ℕ → Bool
  pub joinables : List ℕ
  -- The flag of the handler that is being started.
  pub ready : Bool
  pub dispatch : Dispatch
  pub cleanup : Cleanup
  -- `Run` has called `ReadyToJoin.notify_all()`.
  pub notified : Bool
  -- How often a thread has been woken without a notification.
  pub spurious : ℕ

abbrev pub fresh_pool : Pool
fresh_pool = record {
  do_shutdown = false;
  current_id = 0;
  phases = λ i. absent;
  registered = λ i. false;
  joinables = [];
  ready = false;
  dispatch = accepting;
  cleanup = watching;
  notified = false;
  spurious = 0;
}

-- `readyCond.notify_all()`.
unfoldable pub wake : ℕ → Dispatch → Dispatch
wake i (asleep j) = if i == j then waiting j else asleep j
wake i d = d

-- `ReadyToJoin.notify_all()`.
unfoldable pub rouse : Cleanup → Cleanup
rouse dozing = watching
rouse c = c

-- The cleanup thread has `JoinablesMutex`.
abbrev pub holds : Cleanup → Bool
holds drowsy = true
holds joining = true
holds c = false

-- The dispatch thread has `ready` and `readyCond` for this handler.
abbrev pub awaits : ℕ → Dispatch → Bool
awaits i (spawned j) = i == j
awaits i (waiting j) = i == j
awaits i (unready j) = i == j
awaits i (asleep j) = i == j
awaits i d = false

pub data Step (s t : Pool) : Type 0 where
  -- `Accept` has returned: `size_t newId = CurrentId++;`.
  take_id :
      s.dispatch ≡ accepting
      → t ≡ record s { dispatch = creating s.current_id; current_id = s.current_id + 1 }
      → Step s t
  spawn :
      (i : ℕ)
      → s.dispatch ≡ creating i
      → t ≡ record s { dispatch = spawned i; phases = update s.phases i starting; ready = false }
      → Step s t
  -- The constructor of the thread has thrown.
  fail_spawn : (i : ℕ) → s.dispatch ≡ creating i → t ≡ record s { dispatch = stopped } → Step s t
  register :
      (i : ℕ)
      → s.dispatch ≡ spawned i
      → holds s.cleanup ≡ false
      → t ≡ record s { dispatch = waiting i; registered = update s.registered i true }
      → Step s t
  test_unready :
      (i : ℕ)
      → s.dispatch ≡ waiting i
      → s.ready ≡ false
      → t ≡ record s { dispatch = unready i }
      → Step s t
  fall_asleep : (i : ℕ) → s.dispatch ≡ unready i → t ≡ record s { dispatch = asleep i } → Step s t
  wake_spuriously :
      (i : ℕ)
      → s.dispatch ≡ asleep i
      → t ≡ record s { dispatch = waiting i; spurious = s.spurious + 1 }
      → Step s t
  -- The handler is ready, the hello has been sent, and the loop tests `DoShutdown`.
  greet :
      (i : ℕ)
      → s.dispatch ≡ waiting i
      → s.ready ≡ true
      → t ≡ record s { dispatch = if s.do_shutdown then stopped else accepting }
      → Step s t
  -- Sending the hello has thrown, or was cancelled.
  fail_hello :
      (i : ℕ)
      → s.dispatch ≡ waiting i
      → s.ready ≡ true
      → t ≡ record s { dispatch = stopped }
      → Step s t
  -- Accepting a connection has thrown.
  fail_accept : s.dispatch ≡ accepting → t ≡ record s { dispatch = stopped } → Step s t
  -- `ready = true; readyCond.notify_all();`
  announce :
      (i : ℕ)
      → s.phases i ≡ starting
      → awaits i s.dispatch ≡ true
      → t ≡ record s {
        phases = update s.phases i serving;
        ready = true;
        dispatch = wake i s.dispatch;
      }
      → Step s t
  -- The same where the dispatch thread has been cancelled: `ready` and `readyCond` are gone.
  dangle :
      (i : ℕ)
      → s.phases i ≡ starting
      → s.dispatch ≡ stopped
      → t ≡ record s { dispatch = undefined }
      → Step s t
  -- A handler returns or is unwound: its `Defer` pushes its id and notifies.
  finish :
      (i : ℕ)
      → s.phases i ≡ serving
      → holds s.cleanup ≡ false
      → t ≡ record s {
        phases = update s.phases i finished;
        joinables = s.joinables ++ (i ∷ []);
        cleanup = rouse s.cleanup;
      }
      → Step s t
  -- The predicate of `ReadyToJoin.wait` is false.
  test_idle :
      s.cleanup ≡ watching
      → s.joinables ≡ []
      → s.do_shutdown ≡ false
      → t ≡ record s { cleanup = drowsy }
      → Step s t
  doze : s.cleanup ≡ drowsy → t ≡ record s { cleanup = dozing } → Step s t
  rouse_spuriously :
      s.cleanup ≡ dozing → t ≡ record s { cleanup = watching; spurious = s.spurious + 1 } → Step s t
  -- The predicate is true, and the test for the end is not.
  begin_join :
      (i : ℕ) (rest : List ℕ)
      → s.cleanup ≡ watching
      → s.joinables ≡ i ∷ rest
      → (s.do_shutdown ≡ false) ⊎ ((j : ℕ) × (s.registered j ≡ true))
      → t ≡ record s { cleanup = joining }
      → Step s t
  join :
      (i : ℕ) (rest : List ℕ)
      → s.cleanup ≡ joining
      → s.joinables ≡ i ∷ rest
      → s.registered i ≡ true
      → s.phases i ≡ finished
      → t ≡ record s {
        phases = update s.phases i joined;
        registered = update s.registered i false;
        joinables = rest;
      }
      → Step s t
  -- `Handlers.at(id)` throws `std::out_of_range`.
  miss :
      (i : ℕ) (rest : List ℕ)
      → s.cleanup ≡ joining
      → s.joinables ≡ i ∷ rest
      → s.registered i ≡ false
      → t ≡ record s { cleanup = crashed }
      → Step s t
  end_join : s.cleanup ≡ joining → s.joinables ≡ [] → t ≡ record s { cleanup = watching } → Step s t
  leave :
      s.cleanup ≡ watching
      → s.do_shutdown ≡ true
      → ((i : ℕ) → s.registered i ≡ false)
      → t ≡ record s { cleanup = left }
      → Step s t
  -- The signal handler of `Run`.
  shut_down : t ≡ record s { do_shutdown = true } → Step s t
  -- `pthread_cancel` of the dispatch thread: in `accept`, in the `sleep` of `CreateHandlerSocket`, or in
  -- the wait for a handler.
  cancel_accept :
      s.do_shutdown ≡ true → s.dispatch ≡ accepting → t ≡ record s { dispatch = stopped } → Step s t
  cancel_create :
      (i : ℕ)
      → s.do_shutdown ≡ true
      → s.dispatch ≡ creating i
      → t ≡ record s { dispatch = stopped }
      → Step s t
  cancel_wait :
      (i : ℕ)
      → s.do_shutdown ≡ true
      → s.dispatch ≡ asleep i
      → t ≡ record s { dispatch = stopped }
      → Step s t
  -- `ReadyToJoin.notify_all()` of `Run`, which has joined the dispatch thread and does not have
  -- `JoinablesMutex`.
  notify :
      s.do_shutdown ≡ true
      → s.dispatch ≡ stopped
      → s.notified ≡ false
      → t ≡ record s { cleanup = rouse s.cleanup; notified = true }
      → Step s t

pub data Reach (s : Pool) : Pool → Type 0 where
  here : Reach s s
  next : {t u : Pool} → Reach s t → Step t u → Reach s u
