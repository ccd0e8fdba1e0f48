-- ===== src/Server/Threads/Invariant.antt =====
-- Src/Server.cpp: what `Handlers`, `Joinables` and the threads say about one another.
use roki_mb_daemon.Base.{
  ℕ, ◌≤◌, ◌<◌, ◌≡◌, Bool, true, false, not, ◌&&◌, ◌==◌, count, count-snoc, arith,
}
use roki_mb_daemon.Server.Threads.{
  Phase, absent, finished, joined, Dispatch, creating, spawned, Pool, fresh_pool, wake, rouse, Step,
  take_id, spawn, fail_spawn, register, test_unready, fall_asleep, wake_spuriously, greet,
  fail_hello, fail_accept, announce, dangle, finish, test_idle, doze, rouse_spuriously, begin_join,
  join, miss, end_join, leave, shut_down, cancel_accept, cancel_create, cancel_wait, notify, Reach,
  here, next,
}

-- A thread that has been started and not joined.
abbrev pub is_live : Phase → Bool
is_live absent = false
is_live joined = false
is_live p = true

abbrev pub is_absent : Phase → Bool
is_absent absent = true
is_absent p = false

abbrev pub is_finished : Phase → ℕ
is_finished finished = 1
is_finished p = 0

-- The dispatch thread has started this handler and not yet registered it.
abbrev pub in_hand : ℕ → Dispatch → Bool
in_hand i (spawned j) = i == j
in_hand i d = false

-- The dispatch thread has taken this id and not yet started its thread.
abbrev pub chosen : ℕ → Dispatch → Bool
chosen i (creating j) = i == j
chosen i d = false

pub record IsSound (s : Pool) : Type 0 where
  -- A finished thread is in `Joinables` once, and no other thread is.
  pub counted : (i : ℕ) → count i s.joinables ≡ is_finished (s.phases i)
  pub listed : (i : ℕ) → s.registered i ≡ (is_live (s.phases i) && not (in_hand i s.dispatch))
  pub unstarted : (i : ℕ) → s.current_id ≤ i → s.phases i ≡ absent
  pub held : (i : ℕ) → in_hand i s.dispatch ≡ true → is_live (s.phases i) ≡ true
  pub new : (i : ℕ) → chosen i s.dispatch ≡ true → s.phases i ≡ absent
  pub taken : (i : ℕ) → chosen i s.dispatch ≡ true → i < s.current_id

-- What a step keeps for one thread `i`: the fields at `i`.
abbrev At : Pool → ℕ → Type 0
At s i =
    (count i s.joinables ≡ is_finished (s.phases i))
    × (s.registered i ≡ (is_live (s.phases i) && not (in_hand i s.dispatch)))
    × (s.current_id ≤ i → s.phases i ≡ absent)
    × (in_hand i s.dispatch ≡ true → is_live (s.phases i) ≡ true)
    × (chosen i s.dispatch ≡ true → s.phases i ≡ absent)
    × (chosen i s.dispatch ≡ true → i < s.current_id)

at : {s : Pool} → IsSound s → (i : ℕ) → At s i
at v i = (v.counted i, v.listed i, v.unstarted i, v.held i, v.new i, v.taken i)

of_At : {s : Pool} → ((i : ℕ) → At s i) → IsSound s
of_At h = record {
  counted = λ i. (h i).0;
  listed = λ i. (h i).1;
  unstarted = λ i. (h i).2;
  held = λ i. (h i).3;
  new = λ i. (h i).4;
  taken = λ i. (h i).5;
}

Step-At : {s t : Pool} → Step s t → IsSound s → (i : ℕ) → At t i
unfolding wake rouse
Step-At {s} {t} (take_id d e) v i = rw e (ground (arith, at v i))
Step-At {s} {t} (spawn j d e) v i = rw e (ground (arith, at v i, at v j))
Step-At {s} {t} (fail_spawn j d e) v i = rw e (ground (arith, at v i))
Step-At {s} {t} (register j d g e) v i = rw e (ground (arith, at v i))
Step-At {s} {t} (test_unready j d r e) v i = rw e (ground (arith, at v i))
Step-At {s} {t} (fall_asleep j d e) v i = rw e (ground (arith, at v i))
Step-At {s} {t} (wake_spuriously j d e) v i = rw e (ground (arith, at v i))
Step-At {s} {t} (greet j d r e) v i = rw e (ground (arith, at v i))
Step-At {s} {t} (fail_hello j d r e) v i = rw e (ground (arith, at v i))
Step-At {s} {t} (fail_accept d e) v i = rw e (ground (arith, at v i))
Step-At {s} {t} (announce j p a e) v i = rw e (ground (arith, at v i, at v j))
Step-At {s} {t} (dangle j p d e) v i = rw e (ground (arith, at v i))
Step-At {s} {t} (finish j p g e) v i =
    rw (e, count-snoc i j s.joinables) (ground (arith, at v i, at v j))
Step-At {s} {t} (test_idle c q n e) v i = rw e (ground (arith, at v i))
Step-At {s} {t} (doze c e) v i = rw e (ground (arith, at v i))
Step-At {s} {t} (rouse_spuriously c e) v i = rw e (ground (arith, at v i))
Step-At {s} {t} (begin_join j rest c q g e) v i = rw e (ground (arith, at v i))
Step-At {s} {t} (join j rest c q r p e) v i = rw e (ground (arith, at v i, at v j))
Step-At {s} {t} (miss j rest c q r e) v i = rw e (ground (arith, at v i))
Step-At {s} {t} (end_join c q e) v i = rw e (ground (arith, at v i))
Step-At {s} {t} (leave c d n e) v i = rw e (ground (arith, at v i))
Step-At {s} {t} (shut_down e) v i = rw e (ground (arith, at v i))
Step-At {s} {t} (cancel_accept d a e) v i = rw e (ground (arith, at v i))
Step-At {s} {t} (cancel_create j d a e) v i = rw e (ground (arith, at v i))
Step-At {s} {t} (cancel_wait j d a e) v i = rw e (ground (arith, at v i))
Step-At {s} {t} (notify d a n e) v i = rw e (ground (arith, at v i))

fresh_pool-IsSound : IsSound fresh_pool
fresh_pool-IsSound = of_At (λ i. ground arith)

-- In every interleaving that starts with the daemon: the ids in `Joinables` are those of the threads that
-- have finished and are not joined, each once; `Handlers` has the threads that have been started and
-- not joined, apart from the one that the dispatch thread is about to register; every thread that has
-- been started has an id below `CurrentId`; and the id that the dispatch thread has taken, and for
-- which it has not started a thread yet, is below `CurrentId` and no thread has it.
pub Reach-IsSound : {s : Pool} → Reach fresh_pool s → IsSound s
Reach-IsSound here = fresh_pool-IsSound
Reach-IsSound (next r st) = of_At (Step-At st (Reach-IsSound r))
