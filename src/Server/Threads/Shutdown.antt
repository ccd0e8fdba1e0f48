-- ===== src/Server/Threads/Shutdown.antt =====
-- Src/Server.cpp: once the dispatch thread has stopped, the handlers and the cleanup thread can end.
use roki_mb_daemon.Base.{
  ℕ, zero, suc, ◌<◌, ◌≡◌, inl, inr, refl, ◌∙◌, Bool, true, false, List, [], ◌∷◌, ◌++◌, ◌==◌, update,
  arith, Bool-cases,
}
use roki_mb_daemon.Server.Threads.{
  Phase, absent, starting, serving, finished, joined, stopped, Cleanup, watching, drowsy, dozing,
  joining, left, crashed, Pool, fresh_pool, rouse, Step, finish, doze, begin_join, join, end_join,
  leave, notify, Reach, here, next,
}
use roki_mb_daemon.Server.Threads.Invariant.{is_live, IsSound, Reach-IsSound}
use roki_mb_daemon.Server.Threads.Joins.{joinable_finished}

-- The thread has yet to return.
abbrev pub is_running : Phase → Bool
is_running starting = true
is_running serving = true
is_running p = false

-- The thread has yet to say that it is ready.
abbrev pub is_starting : Phase → Bool
is_starting starting = true
is_starting p = false

-- The cleanup thread has not ended.
abbrev pub is_there : Cleanup → Bool
is_there left = false
is_there crashed = false
is_there c = true

-- It does not hold the mutex either.
abbrev pub is_resting : Cleanup → Bool
is_resting watching = true
is_resting dozing = true
is_resting c = false

Reach-trans : {s t u : Pool} → Reach s t → Reach t u → Reach s u
Reach-trans r here = r
Reach-trans r (next q st) = next (Reach-trans r q) st

-- `Run` has stopped the dispatch, no handler has yet to say that it is ready, and the cleanup thread
-- has not ended.
pub record IsClosing (s : Pool) : Type 0 where
  pub shut : s.do_shutdown ≡ true
  pub no_more : s.dispatch ≡ stopped
  pub begun : (i : ℕ) → is_starting (s.phases i) ≡ false
  pub watched : is_there s.cleanup ≡ true

-- More steps, with no spurious wakeup, after which no thread runs that did not run before.
abbrev Later : Pool → Pool → Type 0
Later s t =
    Reach s t
    × IsClosing t
    × (t.notified ≡ s.notified)
    × (t.spurious ≡ s.spurious)
    × (t.current_id ≡ s.current_id)
    × ((j : ℕ) → is_running (s.phases j) ≡ false → is_running (t.phases j) ≡ false)

Later-here : (s : Pool) → IsClosing s → Later s s
Later-here s c = (here, c, refl, refl, refl, λ j h. h)

Later-trans : {s t u : Pool} → Later s t → Later t u → Later s u
Later-trans (r, c, n, p, i, k) (r', c', n', p', i', k') =
    (Reach-trans r r', c', n' ∙ n, p' ∙ p, i' ∙ i, λ j h. k' j (k j h))

-- The cleanup thread joins all that have returned, and gives the mutex back.
Later-drained :
    (xs : List ℕ) (s : Pool)
    → Reach fresh_pool s
    → IsClosing s
    → s.cleanup ≡ joining
    → s.joinables ≡ xs
    → (t : Pool) × Later s t × (t.cleanup ≡ watching) × (t.joinables ≡ [])
Later-drained [] s r c w e = (
  record s { cleanup = watching },
  (
    next here (end_join w e refl),
    record { shut = c.shut; no_more = c.no_more; begun = c.begun; watched = refl },
    refl,
    refl,
    refl,
    λ j h. h,
  ),
  refl,
  e,
)
Later-drained (i ∷ xs) s r c w e =
    let (done, known) = joinable_finished s i xs r e in
    let named : s.registered i ≡ true = elim known [
      | inl g ↦ g
      | inr h ↦ ground (arith, c.no_more)
    ] in
    let t : Pool = record s {
      phases = update s.phases i joined;
      registered = update s.registered i false;
      joinables = xs;
    } in
    let step : Step s t = join i xs w e named done refl in
    let closing : IsClosing t = record {
      shut = c.shut;
      no_more = c.no_more;
      begun = λ j. ground (arith, c.begun j);
      watched = c.watched;
    } in
    let (u, l, awake, empty_) = Later-drained xs t (next r step) closing w refl in
    (
      u,
      Later-trans (next here step, closing, refl, refl, refl, λ j h. ground arith) l,
      awake,
      empty_,
    )

-- The cleanup thread gives the mutex back, if it has it.
Later-freed :
    (s : Pool) (k : Cleanup)
    → s.cleanup ≡ k
    → Reach fresh_pool s
    → IsClosing s
    → (t : Pool) × Later s t × (is_resting t.cleanup ≡ true)
Later-freed s watching e r c = (s, Later-here s c, rw e refl)
Later-freed s dozing e r c = (s, Later-here s c, rw e refl)
Later-freed s drowsy e r c = (
  record s { cleanup = dozing },
  (
    next here (doze e refl),
    record { shut = c.shut; no_more = c.no_more; begun = c.begun; watched = refl },
    refl,
    refl,
    refl,
    λ j h. h,
  ),
  refl,
)
Later-freed s joining e r c =
    let (t, l, at_rest, none_left) = Later-drained s.joinables s r c e refl in
    (t, l, rw at_rest refl)
Later-freed s left e r c = absurd (ground (arith, c.watched))
Later-freed s crashed e r c = absurd (ground (arith, c.watched))

-- The handler `i` returns, and notifies the cleanup thread.
Later-ended :
    (s : Pool) (i : ℕ) (p : Phase)
    → s.phases i ≡ p
    → IsClosing s
    → is_resting s.cleanup ≡ true
    → (t : Pool) × Later s t × (is_resting t.cleanup ≡ true) × (is_running (t.phases i) ≡ false)
unfolding rouse
Later-ended s i starting e c w = absurd (ground (arith, c.begun i))
Later-ended s i serving e c w = (
  record s {
    phases = update s.phases i finished;
    joinables = s.joinables ++ (i ∷ []);
    cleanup = rouse s.cleanup;
  },
  (
    next here (finish i e (ground arith) refl),
    record {
      shut = c.shut;
      no_more = c.no_more;
      begun = λ j. ground (arith, c.begun j);
      watched = ground arith;
    },
    refl,
    refl,
    refl,
    λ j h. ground arith,
  ),
  ground arith,
  ground arith,
)
Later-ended s i absent e c w = (s, Later-here s c, w, rw e refl)
Later-ended s i finished e c w = (s, Later-here s c, w, rw e refl)
Later-ended s i joined e c w = (s, Later-here s c, w, rw e refl)

-- All handlers below `n` return.
Later-all_ended :
    (n : ℕ) (s : Pool)
    → IsClosing s
    → is_resting s.cleanup ≡ true
    → (t : Pool) × Later s t
      × (is_resting t.cleanup ≡ true)
      × ((i : ℕ) → i < n → is_running (t.phases i) ≡ false)
Later-all_ended zero s c w = (s, Later-here s c, w, λ i h. absurd (omega arith))
Later-all_ended (suc n) s c w =
    let (t, l, w', below) = Later-all_ended n s c w in
    let (u, l', w'', at_n) = Later-ended t n (t.phases n) refl l.1 w' in
    (
      u,
      Later-trans l l',
      w'',
      λ i lt. elim (Bool-cases (i == n)) [
        | inl same ↦ (let e : i ≡ n = ground arith in rw e at_n)
        | inr other ↦ l'.5 i (below i (ground arith))
      ],
    )

-- Nothing is left to join, and no thread runs.
none_live :
    (s : Pool)
    → IsSound s
    → s.joinables ≡ []
    → (i : ℕ) → is_running (s.phases i) ≡ false
    → is_live (s.phases i) ≡ false
none_live s v e i h = ground (arith, v.counted i)

none_listed :
    (s : Pool) → IsSound s → (i : ℕ) → is_live (s.phases i) ≡ false → s.registered i ≡ false
none_listed s v i h = ground (arith, v.listed i)

-- Awake, the cleanup thread joins what there is to join.
Later-gathered :
    (xs : List ℕ) (s : Pool)
    → Reach fresh_pool s
    → IsClosing s
    → s.cleanup ≡ watching
    → s.joinables ≡ xs
    → (t : Pool) × Later s t × (t.cleanup ≡ watching) × (t.joinables ≡ [])
Later-gathered [] s r c w e = (s, Later-here s c, w, e)
Later-gathered (i ∷ xs) s r c w e =
    let (done, known) = joinable_finished s i xs r e in
    let named : s.registered i ≡ true = elim known [
      | inl g ↦ g
      | inr h ↦ ground (arith, c.no_more)
    ] in
    let t : Pool = record s { cleanup = joining } in
    let step : Step s t = begin_join i xs w e (inr (i, named)) refl in
    let closing : IsClosing t = record {
      shut = c.shut;
      no_more = c.no_more;
      begun = c.begun;
      watched = refl;
    } in
    let (u, l, awake, empty_) = Later-drained (i ∷ xs) t (next r step) closing refl e in
    (u, Later-trans (next here step, closing, refl, refl, refl, λ j h. h) l, awake, empty_)

-- The `notify_all` of `Run` wakes the cleanup thread, if it does not hold the mutex.
rouse-resting : (c : Cleanup) → is_resting c ≡ true → rouse c ≡ watching
unfolding rouse
rouse-resting c w = ground arith

-- Once `DoShutdown` is set and the dispatch thread has stopped, no handler has yet to say that it is
-- ready, the cleanup thread has not ended, and `Run` has not yet notified it: from every such state that
-- the server can reach there is a way on which all handlers return, all are joined, and the cleanup
-- thread leaves. It needs no wakeup but those of `notify_all`.
pub shutdown_ends :
    (s : Pool)
    → Reach fresh_pool s
    → IsClosing s
    → s.notified ≡ false
    → (u : Pool) × Reach s u
      × (u.cleanup ≡ left)
      × (u.spurious ≡ s.spurious)
      × ((i : ℕ) → is_live (u.phases i) ≡ false)
shutdown_ends s r c silent =
    let (a, l, w) = Later-freed s s.cleanup refl r c in
    let (b, l', w', quiet) = Later-all_ended a.current_id a l.1 w in
    let to_b = Later-trans l l' in
    let d : Pool = record b { cleanup = rouse b.cleanup; notified = true } in
    let awake = rouse-resting b.cleanup w' in
    let shut = l'.1.shut in
    let no_more = l'.1.no_more in
    let told : Step b d = notify shut no_more (to_b.2 ∙ silent) refl in
    let to_d : Reach s d = next to_b.0 told in
    let closing : IsClosing d = record {
      shut = shut;
      no_more = no_more;
      begun = l'.1.begun;
      watched = rw awake refl;
    } in
    let (u, m, w'', empty_) =
      Later-gathered d.joinables d (Reach-trans r to_d) closing awake refl in
    let to_u : Reach s u = Reach-trans to_d m.0 in
    let v = Reach-IsSound (Reach-trans r to_u) in
    let ended : (i : ℕ) → is_running (u.phases i) ≡ false = λ i.
      elim (Bool-cases (is_running (b.phases i))) [
        | inl runs ↦
            ground (arith, quiet i, l'.4, (Reach-IsSound (Reach-trans r to_b.0)).unstarted i)
        | inr ended_ ↦ m.5 i ended_
      ] in
    let dead : (i : ℕ) → is_live (u.phases i) ≡ false = λ i. none_live u v empty_ i (ended i) in
    (
      record u { cleanup = left },
      next to_u (leave w'' m.1.shut (λ i. none_listed u v i (dead i)) refl),
      refl,
      m.3 ∙ to_b.3,
      dead,
    )
