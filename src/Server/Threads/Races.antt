-- ===== src/Server/Threads/Races.antt =====
-- Src/Server.cpp: a handler sets `ready` without `readyMutex`, its thread is registered after it has
-- been started, and the cleanup thread does not wait for the dispatch thread.
use roki_mb_daemon.Base.{
  ℕ, ◌+◌, ◌≤◌, ◌<◌, ◌≡◌, ◌≢◌, ◌⊎◌, inl, refl, true, false, [], ◌∷◌, ◌++◌, update, arith,
}
use roki_mb_daemon.Server.Threads.{
  starting, serving, finished, accepting, creating, spawned, waiting, unready, asleep, watching,
  dozing, joining, left, crashed, Cleanup, Pool, fresh_pool, wake, rouse, take_id, spawn, register,
  test_unready, fall_asleep, announce, finish, begin_join, miss, leave, shut_down, Reach, here,
  next,
}
use roki_mb_daemon.Server.Threads.Invariant.{Reach-IsSound}

-- The cleanup thread sleeps, or is about to look for work.
abbrev pub IsResting : Cleanup → Type 0
IsResting c = (c ≡ watching) ⊎ (c ≡ dozing)

module _ (s : Pool) (r : Reach fresh_pool s) (idle : s.dispatch ≡ accepting) where
  abbrev id_taken : Pool
  id_taken = record s { dispatch = creating s.current_id; current_id = s.current_id + 1 }

  abbrev started_one : Pool
  started_one = record id_taken {
    dispatch = spawned s.current_id;
    phases = update s.phases s.current_id starting;
    ready = false;
  }

  started_one-Reach : Reach s started_one
  started_one-Reach = next (next here (take_id idle refl)) (spawn s.current_id refl refl)

  unregistered_next : s.registered s.current_id ≡ false
  unregistered_next =
      let v = Reach-IsSound r in ground (arith, v.listed s.current_id, v.unstarted s.current_id)

  -- From every state that the server can reach with no handler to join and no shutdown requested, while
  -- it waits for a client and the cleanup thread sleeps or is about to look for work, an interleaving
  -- ends the cleanup thread by an exception: the new handler returns before it is registered.
  pub cleanup_crashes :
      IsResting s.cleanup
      → s.joinables ≡ []
      → s.do_shutdown ≡ false
      → (t : Pool) × Reach s t × (t.cleanup ≡ crashed)
  unfolding wake rouse
  cleanup_crashes rests none_left on =
      let i : ℕ = s.current_id in
      let s2 : Pool = record started_one {
        phases = update started_one.phases i serving;
        ready = true;
        dispatch = wake i (spawned i);
      } in
      let s3 : Pool = record s2 {
        phases = update s2.phases i finished;
        joinables = s.joinables ++ (i ∷ []);
        cleanup = rouse s.cleanup;
      } in
      let s4 : Pool = record s3 { cleanup = joining } in
      let listed : s3.joinables ≡ i ∷ [] = rw none_left refl in
      (
        record s4 { cleanup = crashed },
        next
            (next
              (next (next started_one-Reach (announce i (ground arith) (ground arith) refl))
                (finish i (ground arith) (ground arith) refl))
              (begin_join i [] (ground arith) listed (inl on) refl))
            (miss i [] refl listed unregistered_next refl),
        refl,
      )

  -- From every state that the server can reach with no handler, while it waits for a client and the
  -- cleanup thread is about to look for work, an interleaving with a shutdown lets the cleanup thread
  -- leave although a handler is registered after it: nobody joins that handler.
  pub cleanup_leaves_early :
      s.cleanup ≡ watching
      → ((i : ℕ) → s.registered i ≡ false)
      → (t : Pool) × (i : ℕ) × Reach s t × (t.cleanup ≡ left) × (t.registered i ≡ true)
  cleanup_leaves_early watched no_handler =
      let i : ℕ = s.current_id in
      let s2 : Pool = record started_one { do_shutdown = true } in
      let s3 : Pool = record s2 { cleanup = left } in
      (
        record s3 { dispatch = waiting i; registered = update s.registered i true },
        i,
        next (next (next started_one-Reach (shut_down refl)) (leave watched refl no_handler refl))
            (register i refl refl refl),
        refl,
        ground arith,
      )

  -- The dispatch thread sleeps, and the handler that it waits for has said that it is ready.
  abbrev pub IsDeaf : Pool → ℕ → Type 0
  IsDeaf t i = (t.dispatch ≡ asleep i) × (t.ready ≡ true) × (t.phases i ≢ starting)

  -- From every state that the server can reach while it waits for a client and the cleanup thread sleeps
  -- or is about to look for work, an interleaving puts the dispatch thread to sleep after the handler has
  -- said that it is ready.
  pub wakeup_lost : IsResting s.cleanup → (t : Pool) × (i : ℕ) × Reach s t × IsDeaf t i
  unfolding wake
  wakeup_lost rests =
      let i : ℕ = s.current_id in
      let s2 : Pool = record started_one {
        dispatch = waiting i;
        registered = update s.registered i true;
      } in
      let s3 : Pool = record s2 { dispatch = unready i } in
      let s4 : Pool = record s3 {
        phases = update s3.phases i serving;
        ready = true;
        dispatch = wake i (unready i);
      } in
      (
        record s4 { dispatch = asleep i },
        i,
        next
            (next
              (next (next started_one-Reach (register i refl (ground arith) refl))
                (test_unready i refl refl refl))
              (announce i (ground arith) (ground arith) refl))
            (fall_asleep i refl refl),
        (refl, refl, ground arith),
      )

-- Asleep for good, about to end, or woken without a notification.
abbrev IsStuck : ℕ → ℕ → Pool → Type 0
IsStuck n i t =
    (n ≤ t.spurious)
    × (((t.dispatch ≡ asleep i) × (t.phases i ≢ starting))
        ⊎ (t.do_shutdown ≡ true)
        ⊎ (n < t.spurious))
