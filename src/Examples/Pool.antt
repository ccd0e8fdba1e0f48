-- ===== src/Examples/Pool.antt =====
-- The threads of the server in concrete interleavings.
use roki_mb_daemon.Base.{ℕ, ◌+◌, ◌≡◌, refl, inl, true, false, [], ◌∷◌, ◌++◌, update, arith}
use roki_mb_daemon.Server.Threads.{
  starting, serving, finished, joined, accepting, spawned, waiting, asleep, stopped, dozing, left,
  crashed, Pool, fresh_pool, wake, rouse, take_id, spawn, register, greet, announce, finish,
  test_idle, doze, begin_join, join, end_join, leave, shut_down, cancel_accept, notify, Reach, here,
  next,
}
use roki_mb_daemon.Server.Threads.Invariant.{is_live, IsSound, Reach-IsSound}
use roki_mb_daemon.Server.Threads.Joins.{leave_joined}
use roki_mb_daemon.Server.Threads.Shutdown.{shutdown_ends}
use roki_mb_daemon.Server.Threads.Lost.{dozes_on}
use roki_mb_daemon.Server.Threads.Races.{cleanup_crashes}

-- A handler is started and registered, is ready, serves and returns, and is joined.
abbrev begun : Pool
begun = record fresh_pool {
  dispatch = spawned 0;
  current_id = 0 + 1;
  phases = update fresh_pool.phases 0 starting;
  ready = false;
}

abbrev listed_one : Pool
listed_one = record begun { dispatch = waiting 0; registered = update begun.registered 0 true }

abbrev talking : Pool
talking = record listed_one {
  phases = update listed_one.phases 0 serving;
  ready = true;
  dispatch = waiting 0;
}

abbrev greeted : Pool
greeted = record talking { dispatch = accepting }

abbrev returned : Pool
returned = record greeted { phases = update greeted.phases 0 finished; joinables = 0 ∷ [] }

abbrev gathered : Pool
gathered = record returned {
  phases = update returned.phases 0 joined;
  registered = update returned.registered 0 false;
  joinables = [];
}

begun-Reach : Reach fresh_pool begun
begun-Reach = next (next here (take_id refl refl)) (spawn 0 refl refl)

talking-Reach : Reach fresh_pool talking
unfolding wake
talking-Reach = next (next begun-Reach (register 0 refl refl refl)) (announce 0 refl refl refl)

greeted-Reach : Reach fresh_pool greeted
greeted-Reach = next talking-Reach (greet 0 refl refl refl)

gathered-Reach : Reach fresh_pool gathered
unfolding rouse
gathered-Reach =
    next
      (next
        (next (next greeted-Reach (finish 0 refl refl refl))
          (begin_join 0 [] refl refl (inl refl) refl))
        (join 0 [] refl refl refl refl refl))
      (end_join refl refl refl)

Reach-IsSound_example : IsSound gathered
Reach-IsSound_example = Reach-IsSound gathered-Reach

-- The shutdown, once with the handler joined and once while it serves and the cleanup thread sleeps.
abbrev closing : Pool → Pool
closing s = record s { do_shutdown = true; dispatch = stopped }

closing-Reach :
    (s : Pool) → Reach fresh_pool s → s.dispatch ≡ accepting → Reach fresh_pool (closing s)
closing-Reach s r e = next (next r (shut_down refl)) (cancel_accept refl e refl)

abbrev sleepy : Pool
sleepy = record greeted { cleanup = dozing }

sleepy-Reach : Reach fresh_pool sleepy
sleepy-Reach = next (next greeted-Reach (test_idle refl refl refl refl)) (doze refl refl)

shutdown_ends_example :
    (u : Pool) × Reach (closing sleepy) u
    × (u.cleanup ≡ left)
    × (u.spurious ≡ 0)
    × ((i : ℕ) → is_live (u.phases i) ≡ false)
shutdown_ends_example =
    shutdown_ends (closing sleepy) (closing-Reach sleepy sleepy-Reach refl)
      (record { shut = refl; no_more = refl; begun = λ i. ground arith; watched = refl }) refl

none_registered : (i : ℕ) → gathered.registered i ≡ false
none_registered i = ground arith

leave_joined_example : (closing gathered).phases 0 ≡ joined
leave_joined_example =
    leave_joined (closing gathered) (record (closing gathered) { cleanup = left }) 0
      (closing-Reach gathered gathered-Reach refl) (leave refl refl none_registered refl) refl refl
      refl refl

-- The cleanup thread finds nothing to do; then the shutdown is requested, the dispatch thread is stopped
-- and the cleanup thread is notified; then it falls asleep. The signal may come once more.
abbrev deserted : Pool
deserted = record (closing fresh_pool) { cleanup = dozing; notified = true }

deserted-Reach : Reach fresh_pool deserted
unfolding rouse
deserted-Reach =
    next
      (next
        (next (next (next here (test_idle refl refl refl refl)) (shut_down refl))
          (cancel_accept refl refl refl))
        (notify refl refl refl refl))
      (doze refl refl)

dozes_on_example : deserted.cleanup ≡ dozing
dozes_on_example =
    dozes_on deserted deserted
      (record { sleeps = refl; told = refl; no_more = refl; dead = λ i. refl })
      (next here (shut_down refl)) refl

cleanup_crashes_example : (t : Pool) × Reach fresh_pool t × (t.cleanup ≡ crashed)
cleanup_crashes_example = cleanup_crashes fresh_pool here refl (inl refl) refl refl

-- The dispatch thread sleeps although the handler has said that it is ready, and the handler returns.
abbrev deaf : Pool
deaf = record talking { dispatch = asleep 0 }

abbrev deaf_later : Pool
deaf_later = record deaf {
  phases = update deaf.phases 0 finished;
  joinables = deaf.joinables ++ (0 ∷ []);
}
