-- ===== src/Handler/Threads/Exclusion.antt =====
-- Src/FirmwareFSM.cpp, Src/HandlerImpl.cpp: what excludes what, in every interleaving.
use roki_mb_daemon.Base.{ℕ, ◌≡◌, ◌≢◌, ap, Bool, true, false, List, some, arith}
use roki_mb_daemon.HwUtils.{Os}
use roki_mb_daemon.Firmware.{FwState, transition, check_state, check_from}
use roki_mb_daemon.Firmware.Transitions.{Call, reset, start, flash}
use roki_mb_daemon.Handler.Threads.{
  Place, acting, connecting, Shared, move, initial, routine, Step, clear_flash, clear_reset,
  call_start, begin, refuse, succeed, fail, check_connect, grant, fail_connect, release, Reach,
  here, next,
}

abbrev pub is_acting : Place → Bool
is_acting (acting c) = true
is_acting _ = false

abbrev pub is_connecting : Place → Bool
is_connecting connecting = true
is_connecting _ = false

pub record IsExclusive (s : Shared) : Type 0 where
  pub acting_transition : (i : ℕ) → is_acting (s.places i) ≡ true → s.state ≡ transition
  pub one_acting : (i j : ℕ) → is_acting (s.places i) ≡ true → is_acting (s.places j) ≡ true → i ≡ j
  pub connecting_owner : (i : ℕ) → is_connecting (s.places i) ≡ true → s.owner ≡ some i
  pub connecting_free : (i : ℕ) → is_connecting (s.places i) ≡ true → s.acquired ≡ false

-- A step that moves thread `i` to the place `p`.
move-IsExclusive :
    (s t : Shared) (i : ℕ) (p : Place)
    → IsExclusive s
    → t.places ≡ move s.places i p
    → (is_acting p ≡ true → t.state ≡ transition)
    → ((j : ℕ)
        → i ≢ j
        → is_acting (s.places j) ≡ true
        → (t.state ≡ transition) × (is_acting p ≡ false))
    → (is_connecting p ≡ true → (t.owner ≡ some i) × (t.acquired ≡ false))
    → ((j : ℕ)
        → i ≢ j
        → is_connecting (s.places j) ≡ true
        → (t.owner ≡ some j) × (t.acquired ≡ false))
    → IsExclusive t
unfolding move
move-IsExclusive s t i p v e own others own' others' = record {
  acting_transition = λ j. rw e (ground (arith, own, others j));
  one_acting = λ j k. rw e (ground (arith, own, others j, others k, v.one_acting j k));
  connecting_owner = λ j. rw e (ground (arith, own', others' j));
  connecting_free = λ j. rw e (ground (arith, own', others' j));
}

module _ {W : Type 0} (os : Os W) (dir : List ℕ) where
  -- No routine begins in `transition`, and none ends in it.
  begin-state :
      (c : Call) (s : FwState)
      → check_state s (routine os dir c).expected_states ≡ true
      → (s ≡ transition → ⊥)
  unfolding routine check_state check_from
  begin-state reset s h = ground arith
  begin-state start s h = ground arith
  begin-state (flash path) s h = ground arith

  Step-IsExclusive : {i : ℕ} {s t : Shared} → Step os dir i s t → IsExclusive s → IsExclusive t
  Step-IsExclusive {i} {s} {t} (clear_flash path p o a e) v =
      move-IsExclusive s t i _ v (ap (λ r. r.places) e) (ground arith)
        (λ j n h. ground (arith, v.acting_transition j, v.one_acting i j)) (ground arith)
        λ j n h. ground (arith, v.connecting_owner j, v.connecting_free j, v.connecting_owner i)
  Step-IsExclusive {i} {s} {t} (clear_reset p o a e) v =
      move-IsExclusive s t i _ v (ap (λ r. r.places) e) (ground arith)
        (λ j n h. ground (arith, v.acting_transition j, v.one_acting i j)) (ground arith)
        λ j n h. ground (arith, v.connecting_owner j, v.connecting_free j, v.connecting_owner i)
  Step-IsExclusive {i} {s} {t} (call_start p e) v =
      move-IsExclusive s t i _ v (ap (λ r. r.places) e) (ground arith)
        (λ j n h. ground (arith, v.acting_transition j, v.one_acting i j)) (ground arith)
        λ j n h. ground (arith, v.connecting_owner j, v.connecting_free j, v.connecting_owner i)
  Step-IsExclusive {i} {s} {t} (begin c p k e) v =
      move-IsExclusive s t i _ v (ap (λ r. r.places) e) (ground arith)
        (λ j n h. ground (arith, v.acting_transition j, v.one_acting i j, begin-state c s.state))
        (ground arith)
        λ j n h. ground (arith, v.connecting_owner j, v.connecting_free j, v.connecting_owner i)
  Step-IsExclusive {i} {s} {t} (refuse c p k e) v =
      move-IsExclusive s t i _ v (ap (λ r. r.places) e) (ground arith)
        (λ j n h. ground (arith, v.acting_transition j, v.one_acting i j)) (ground arith)
        λ j n h. ground (arith, v.connecting_owner j, v.connecting_free j, v.connecting_owner i)
  Step-IsExclusive {i} {s} {t} (succeed c p e) v =
      move-IsExclusive s t i _ v (ap (λ r. r.places) e) (ground arith)
        (λ j n h. ground (arith, v.acting_transition j, v.one_acting i j)) (ground arith)
        λ j n h. ground (arith, v.connecting_owner j, v.connecting_free j, v.connecting_owner i)
  Step-IsExclusive {i} {s} {t} (fail c p e) v =
      move-IsExclusive s t i _ v (ap (λ r. r.places) e) (ground arith)
        (λ j n h. ground (arith, v.acting_transition j, v.one_acting i j)) (ground arith)
        λ j n h. ground (arith, v.connecting_owner j, v.connecting_free j, v.connecting_owner i)
  Step-IsExclusive {i} {s} {t} (check_connect p o a r e) v =
      move-IsExclusive s t i _ v (ap (λ r. r.places) e) (ground arith)
        (λ j n h. ground (arith, v.acting_transition j, v.one_acting i j)) (ground arith)
        λ j n h. ground (arith, v.connecting_owner j, v.connecting_free j, v.connecting_owner i)
  Step-IsExclusive {i} {s} {t} (grant p e) v =
      move-IsExclusive s t i _ v (ap (λ r. r.places) e) (ground arith)
        (λ j n h. ground (arith, v.acting_transition j, v.one_acting i j)) (ground arith)
        λ j n h. ground (arith, v.connecting_owner j, v.connecting_free j, v.connecting_owner i)
  Step-IsExclusive {i} {s} {t} (fail_connect p e) v =
      move-IsExclusive s t i _ v (ap (λ r. r.places) e) (ground arith)
        (λ j n h. ground (arith, v.acting_transition j, v.one_acting i j)) (ground arith)
        λ j n h. ground (arith, v.connecting_owner j, v.connecting_free j, v.connecting_owner i)
  Step-IsExclusive {i} {s} {t} (release p o a e) v = rw e (record {
    acting_transition = v.acting_transition;
    one_acting = v.one_acting;
    connecting_owner = v.connecting_owner;
    connecting_free = λ j h. ground (arith, v.connecting_free j);
  })

  initial-IsExclusive : IsExclusive initial
  initial-IsExclusive = record {
    acting_transition = λ i h. cc;
    one_acting = λ i j h k. cc;
    connecting_owner = λ i h. cc;
    connecting_free = λ i h. cc;
  }

  pub Reach-IsExclusive : {s : Shared} → Reach os dir initial s → IsExclusive s
  Reach-IsExclusive here = initial-IsExclusive
  Reach-IsExclusive (next i r st) = Step-IsExclusive st (Reach-IsExclusive r)

  -- In every interleaving of requests at most one thread runs a script, and while one does the state
  -- is `transition`.
  pub one_script :
      (s : Shared) (i j : ℕ)
      → Reach os dir initial s
      → is_acting (s.places i) ≡ true
      → is_acting (s.places j) ≡ true
      → (i ≡ j) × (s.state ≡ transition)
  one_script s i j r h k =
      let v = Reach-IsExclusive r in (v.one_acting i j h k, v.acting_transition i h)

  -- In every interleaving at most one thread is about to take the port, and the port is free while it
  -- is: no grant falls on a held port.
  pub one_grant :
      (s : Shared) (i j : ℕ)
      → Reach os dir initial s
      → is_connecting (s.places i) ≡ true
      → is_connecting (s.places j) ≡ true
      → (i ≡ j) × (s.acquired ≡ false)
  one_grant s i j r h k =
      let v = Reach-IsExclusive r in
      (ground (arith, v.connecting_owner i h, v.connecting_owner j k), v.connecting_free i h)
