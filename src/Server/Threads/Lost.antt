-- ===== src/Server/Threads/Lost.antt =====
-- Src/Server.cpp: `Run` notifies the cleanup thread without `JoinablesMutex`, and its signal handler sets
-- `DoShutdown` without it.
use roki_mb_daemon.Base.{ℕ, ◌≤◌, ◌<◌, ◌≡◌, ◌⊎◌, inl, inr, refl, true, false, [], arith}
use roki_mb_daemon.Server.Threads.{
  accepting, stopped, watching, drowsy, dozing, Pool, wake, rouse, Step, take_id, spawn, fail_spawn,
  register, test_unready, fall_asleep, wake_spuriously, greet, fail_hello, fail_accept, announce,
  dangle, finish, test_idle, doze, rouse_spuriously, begin_join, join, miss, end_join, leave,
  shut_down, cancel_accept, cancel_create, cancel_wait, notify, Reach, here, next,
}
use roki_mb_daemon.Server.Threads.Invariant.{is_live}

-- The cleanup thread sleeps, and nobody is left who would notify it: `Run` has done so, the dispatch
-- thread has stopped, and every handler has been joined.
pub record IsAbandoned (s : Pool) : Type 0 where
  pub sleeps : s.cleanup ≡ dozing
  pub told : s.notified ≡ true
  pub no_more : s.dispatch ≡ stopped
  pub dead : (i : ℕ) → is_live (s.phases i) ≡ false

-- From every state with no handler in which the dispatch thread waits for a client and the cleanup
-- thread is about to look for work, an interleaving with a shutdown leaves the cleanup thread asleep
-- with nobody who would notify it.
pub notify_lost :
    (s : Pool)
    → s.dispatch ≡ accepting
    → s.cleanup ≡ watching
    → s.joinables ≡ []
    → s.do_shutdown ≡ false
    → s.notified ≡ false
    → ((i : ℕ) → is_live (s.phases i) ≡ false)
    → (t : Pool) × Reach s t × IsAbandoned t × (t.spurious ≡ s.spurious)
unfolding rouse
notify_lost s idle watched none_left on silent dead =
    let s1 : Pool = record s { cleanup = drowsy } in
    let s2 : Pool = record s1 { do_shutdown = true } in
    let s3 : Pool = record s2 { dispatch = stopped } in
    let s4 : Pool = record s3 { cleanup = drowsy; notified = true } in
    (
      record s4 { cleanup = dozing },
      next
          (next
            (next (next (next here (test_idle watched none_left on refl)) (shut_down refl))
              (cancel_accept refl idle refl))
            (notify refl refl silent refl))
          (doze refl refl),
      record { sleeps = refl; told = refl; no_more = refl; dead = dead },
      refl,
    )

-- Abandoned, or woken without a notification.
abbrev IsLeft : ℕ → Pool → Type 0
IsLeft n t =
    (n ≤ t.spurious)
    × (((t.cleanup ≡ dozing)
          × (t.notified ≡ true)
          × (t.dispatch ≡ stopped)
          × ((i : ℕ) → is_live (t.phases i) ≡ false))
        ⊎ (n < t.spurious))

Step-IsLeft : (n : ℕ) {s t : Pool} → Step s t → IsLeft n s → IsLeft n t
unfolding wake rouse
Step-IsLeft n (take_id k e) (le, inr more) = rw e (ground (arith, le, more))
Step-IsLeft n (take_id d e) (le, inl (z, told, stop, dead)) = rw e (ground (arith, le))
Step-IsLeft n (spawn j k e) (le, inr more) = rw e (ground (arith, le, more))
Step-IsLeft n (spawn j d e) (le, inl (z, told, stop, dead)) = rw e (ground (arith, le))
Step-IsLeft n (fail_spawn j k e) (le, inr more) = rw e (ground (arith, le, more))
Step-IsLeft n (fail_spawn j d e) (le, inl (z, told, stop, dead)) = rw e (ground (arith, le))
Step-IsLeft n (register j k g e) (le, inr more) = rw e (ground (arith, le, more))
Step-IsLeft n (register j d g e) (le, inl (z, told, stop, dead)) = rw e (ground (arith, le))
Step-IsLeft n (test_unready j k r e) (le, inr more) = rw e (ground (arith, le, more))
Step-IsLeft n (test_unready j d r e) (le, inl (z, told, stop, dead)) = rw e (ground (arith, le))
Step-IsLeft n (fall_asleep j k e) (le, inr more) = rw e (ground (arith, le, more))
Step-IsLeft n (fall_asleep j d e) (le, inl (z, told, stop, dead)) = rw e (ground (arith, le))
Step-IsLeft n (wake_spuriously j k e) (le, inr more) = rw e (ground (arith, le, more))
Step-IsLeft n (wake_spuriously j d e) (le, inl (z, told, stop, dead)) = rw e (ground (arith, le))
Step-IsLeft n (greet j k r e) (le, inr more) = rw e (ground (arith, le, more))
Step-IsLeft n (greet j d r e) (le, inl (z, told, stop, dead)) = rw e (ground (arith, le))
Step-IsLeft n (fail_hello j k r e) (le, inr more) = rw e (ground (arith, le, more))
Step-IsLeft n (fail_hello j d r e) (le, inl (z, told, stop, dead)) = rw e (ground (arith, le))
Step-IsLeft n (fail_accept k e) (le, inr more) = rw e (ground (arith, le, more))
Step-IsLeft n (fail_accept d e) (le, inl (z, told, stop, dead)) = rw e (ground (arith, le))
Step-IsLeft n (announce j p a e) (le, inr more) = rw e (ground (arith, le, more))
Step-IsLeft n (announce j p a e) (le, inl (z, told, stop, dead)) = rw e (ground (arith, le, dead j))
Step-IsLeft n (dangle j p k e) (le, inr more) = rw e (ground (arith, le, more))
Step-IsLeft n (dangle j p d e) (le, inl (z, told, stop, dead)) = rw e (ground (arith, le, dead j))
Step-IsLeft n (finish j p g e) (le, inr more) = rw e (ground (arith, le, more))
Step-IsLeft n (finish j p g e) (le, inl (z, told, stop, dead)) = rw e (ground (arith, le, dead j))
Step-IsLeft n (test_idle c q m e) (le, inr more) = rw e (ground (arith, le, more))
Step-IsLeft n (test_idle c q m e) (le, inl (z, told, stop, dead)) = rw e (ground (arith, le))
Step-IsLeft n (doze c e) (le, inr more) = rw e (ground (arith, le, more))
Step-IsLeft n (doze c e) (le, inl (z, told, stop, dead)) = rw e (ground (arith, le))
Step-IsLeft n (rouse_spuriously c e) (le, inr more) = rw e (ground (arith, le, more))
Step-IsLeft n (rouse_spuriously c e) (le, inl (z, told, stop, dead)) = rw e (ground (arith, le))
Step-IsLeft n (begin_join j rest c q g e) (le, inr more) = rw e (ground (arith, le, more))
Step-IsLeft n (begin_join j rest c q g e) (le, inl (z, told, stop, dead)) =
    rw e (ground (arith, le))
Step-IsLeft n (join j rest c q r p e) (le, inr more) = rw e (ground (arith, le, more))
Step-IsLeft n (join j rest c q r p e) (le, inl (z, told, stop, dead)) =
    rw e (ground (arith, le, dead j))
Step-IsLeft n (miss j rest c q r e) (le, inr more) = rw e (ground (arith, le, more))
Step-IsLeft n (miss j rest c q r e) (le, inl (z, told, stop, dead)) = rw e (ground (arith, le))
Step-IsLeft n (end_join c q e) (le, inr more) = rw e (ground (arith, le, more))
Step-IsLeft n (end_join c q e) (le, inl (z, told, stop, dead)) = rw e (ground (arith, le))
Step-IsLeft n (leave c k m e) (le, inr more) = rw e (ground (arith, le, more))
Step-IsLeft n (leave c d m e) (le, inl (z, told, stop, dead)) = rw e (ground (arith, le))
Step-IsLeft n (shut_down e) (le, inr more) = rw e (ground (arith, le, more))
Step-IsLeft n (shut_down e) (le, inl (z, told, stop, dead)) = rw e (ground (arith, le))
Step-IsLeft n (cancel_accept k a e) (le, inr more) = rw e (ground (arith, le, more))
Step-IsLeft n (cancel_accept d a e) (le, inl (z, told, stop, dead)) = rw e (ground (arith, le))
Step-IsLeft n (cancel_create j k a e) (le, inr more) = rw e (ground (arith, le, more))
Step-IsLeft n (cancel_create j d a e) (le, inl (z, told, stop, dead)) = rw e (ground (arith, le))
Step-IsLeft n (cancel_wait j k a e) (le, inr more) = rw e (ground (arith, le, more))
Step-IsLeft n (cancel_wait j d a e) (le, inl (z, told, stop, dead)) = rw e (ground (arith, le))
Step-IsLeft n (notify k a m e) (le, inr more) = rw e (ground (arith, le, more))
Step-IsLeft n (notify d a m e) (le, inl (z, told, stop, dead)) = rw e (ground (arith, le))

Reach-IsLeft : (n : ℕ) {s t : Pool} → Reach s t → IsLeft n s → IsLeft n t
Reach-IsLeft n here h = h
Reach-IsLeft n (next r st) h = Step-IsLeft n st (Reach-IsLeft n r h)

-- Once the cleanup thread sleeps although `Run` has notified it, the dispatch thread has stopped and every
-- handler has been joined, it sleeps in every later state of every interleaving, unless it is woken
-- without a notification: the shutdown does not end.
pub dozes_on :
    (t u : Pool) → IsAbandoned t → Reach t u → u.spurious ≡ t.spurious → u.cleanup ≡ dozing
dozes_on t u a r same =
    elim (Reach-IsLeft t.spurious r (omega arith, inl (a.sleeps, a.told, a.no_more, a.dead))).1 [
      | inl h ↦ h.0
      | inr more ↦ absurd (omega arith)
    ]
