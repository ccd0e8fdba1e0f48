-- ===== src/Server/Threads/Joins.antt =====
-- Src/Server.cpp: what `CleanupRoutine` may rely on when it joins, and what it has joined when it leaves.
use roki_mb_daemon.Base.{ℕ, ◌≡◌, ◌⊎◌, inl, inr, refl, true, false, List, ◌∷◌, arith, Bool-cases}
use roki_mb_daemon.Server.Threads.{
  finished, joined, spawned, stopped, watching, left, Pool, fresh_pool, wake, rouse, Step, take_id,
  spawn, fail_spawn, register, test_unready, fall_asleep, wake_spuriously, greet, fail_hello,
  fail_accept, announce, dangle, finish, test_idle, doze, rouse_spuriously, begin_join, join, miss,
  end_join, leave, shut_down, cancel_accept, cancel_create, cancel_wait, notify, Reach,
}
use roki_mb_daemon.Server.Threads.Invariant.{is_absent, in_hand, IsSound, Reach-IsSound}

-- In every interleaving, an id that has been pushed is that of a thread that has finished, so that its
-- join does not block; and `Handlers` has it, unless the dispatch thread is about to register it.
pub joinable_finished :
    (s : Pool) (i : ℕ) (rest : List ℕ)
    → Reach fresh_pool s
    → s.joinables ≡ i ∷ rest
    → (s.phases i ≡ finished) × ((s.registered i ≡ true) ⊎ (s.dispatch ≡ spawned i))
joinable_finished s i rest r e =
    let v = Reach-IsSound r in
    let done : s.phases i ≡ finished = ground (arith, v.counted i) in
    (
      done,
      elim (Bool-cases (s.registered i)) [
        | inl yes_ ↦ inl yes_
        | inr no_ ↦ inr (ground (arith, v.listed i))
      ],
    )

-- In every interleaving, a thread that has been joined is never joined again.
pub joined_once :
    (s t : Pool) (i : ℕ) → Reach fresh_pool s → Step s t → s.phases i ≡ joined → t.phases i ≡ joined
unfolding wake
joined_once s t i r (take_id d e) h = rw e h
joined_once s t i r (spawn j d e) h = rw e (ground (arith, (Reach-IsSound r).new j))
joined_once s t i r (fail_spawn j d e) h = rw e h
joined_once s t i r (register j d g e) h = rw e h
joined_once s t i r (test_unready j d y e) h = rw e h
joined_once s t i r (fall_asleep j d e) h = rw e h
joined_once s t i r (wake_spuriously j d e) h = rw e h
joined_once s t i r (greet j d y e) h = rw e h
joined_once s t i r (fail_hello j d y e) h = rw e h
joined_once s t i r (fail_accept d e) h = rw e h
joined_once s t i r (announce j p a e) h = rw e (ground arith)
joined_once s t i r (dangle j p d e) h = rw e h
joined_once s t i r (finish j p g e) h = rw e (ground arith)
joined_once s t i r (test_idle c q n e) h = rw e h
joined_once s t i r (doze c e) h = rw e h
joined_once s t i r (rouse_spuriously c e) h = rw e h
joined_once s t i r (begin_join j rest c q g e) h = rw e h
joined_once s t i r (join j rest c q y p e) h = rw e (ground arith)
joined_once s t i r (miss j rest c q y e) h = rw e h
joined_once s t i r (end_join c q e) h = rw e h
joined_once s t i r (leave c d n e) h = rw e h
joined_once s t i r (shut_down e) h = rw e h
joined_once s t i r (cancel_accept d a e) h = rw e h
joined_once s t i r (cancel_create j d a e) h = rw e h
joined_once s t i r (cancel_wait j d a e) h = rw e h
joined_once s t i r (notify d a n e) h = rw e h

-- Where every handler has been unregistered and the dispatch thread is not about to register one, a
-- thread that was ever started has been joined.
all_joined :
    (s : Pool) (i : ℕ)
    → IsSound s
    → s.registered i ≡ false
    → in_hand i s.dispatch ≡ false
    → is_absent (s.phases i) ≡ false
    → s.phases i ≡ joined
all_joined s i v n h was = ground (arith, v.listed i)

-- In every interleaving, when the cleanup thread leaves while the dispatch thread has stopped, every
-- thread that was ever started has been joined.
pub leave_joined :
    (s t : Pool) (i : ℕ)
    → Reach fresh_pool s
    → Step s t
    → s.cleanup ≡ watching
    → t.cleanup ≡ left
    → s.dispatch ≡ stopped
    → is_absent (s.phases i) ≡ false
    → s.phases i ≡ joined
unfolding rouse
leave_joined s t i r (leave c d n e) w l a was =
    all_joined s i (Reach-IsSound r) (n i) (rw a refl) was
leave_joined s t i r (take_id d e) w l a was = cc
leave_joined s t i r (spawn j d e) w l a was = cc
leave_joined s t i r (fail_spawn j d e) w l a was = cc
leave_joined s t i r (register j d g e) w l a was = cc
leave_joined s t i r (test_unready j d y e) w l a was = cc
leave_joined s t i r (fall_asleep j d e) w l a was = cc
leave_joined s t i r (wake_spuriously j d e) w l a was = cc
leave_joined s t i r (greet j d y e) w l a was = cc
leave_joined s t i r (fail_hello j d y e) w l a was = cc
leave_joined s t i r (fail_accept d e) w l a was = cc
leave_joined s t i r (announce j p b e) w l a was = cc
leave_joined s t i r (dangle j p d e) w l a was = cc
leave_joined s t i r (finish j p g e) w l a was = ground arith
leave_joined s t i r (test_idle c q n e) w l a was = cc
leave_joined s t i r (doze c e) w l a was = cc
leave_joined s t i r (rouse_spuriously c e) w l a was = cc
leave_joined s t i r (begin_join j rest c q g e) w l a was = cc
leave_joined s t i r (join j rest c q y p e) w l a was = cc
leave_joined s t i r (miss j rest c q y e) w l a was = cc
leave_joined s t i r (end_join c q e) w l a was = cc
leave_joined s t i r (shut_down e) w l a was = cc
leave_joined s t i r (cancel_accept d b e) w l a was = cc
leave_joined s t i r (cancel_create j d b e) w l a was = cc
leave_joined s t i r (cancel_wait j d b e) w l a was = cc
leave_joined s t i r (notify d b n e) w l a was = ground arith
