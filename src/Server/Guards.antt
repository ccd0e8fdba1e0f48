-- ===== src/Server/Guards.antt =====
-- Src/Server.cpp: the loop of `HandlerRoutine` as it is written, with `connOk` and the two guards of
-- Inc/roki-mb-daemon/Helpers.hpp, and that Server.antt says the same by cases.
use roki_mb_daemon.Base.{
  ◌≡◌, refl, Bool, true, false, if◌then◌else◌, Bool-cases, inl, inr, Exception, Outcome, ok, throw,
  fault, hang, Exec, resume, then_do, what,
}
use roki_mb_daemon.Rpc.{MsgHeader, recv_package, pack_error, send_package}
use roki_mb_daemon.Server.{
  Session, Server, Next, again, stop, terminated, faulted, hung, on_provider, dispatch_package,
  after_report, report, after_send, after_dispatch, after_receive, serve_round,
}

-- `Defer` around an action on the state `S`.
pub record Defer (S : Type 0) : Type 0 where
  pub deferred : S → S

module _ {S : Type 0} where
  unfoldable pub cancel : Defer S → Defer S
  cancel d = record { deferred = λ s. s }

  -- `~Defer`.
  unfoldable pub run_deferred : Defer S → S → S
  run_deferred d s = d.deferred s

  -- `Defer guard{action}; call; guard.Cancel();`, where the guard goes away at the end of the scope
  -- or when the call throws.
  unfoldable pub guarding : {A : Type 0} → Defer S → Outcome A × S → Outcome A × S
  unfolding cancel run_deferred
  guarding guard (ok a, s) = (ok a, run_deferred (cancel guard) s)
  guarding guard (throw e, s) = (throw e, run_deferred guard s)
  guarding guard (fault, s) = (fault, s)
  guarding guard (hang, s) = (hang, s)

-- The session, and `connOk`.
pub record Guarded (H N : Type 0) : Type 0 where
  pub session : Session H N
  pub conn_ok : Bool

module _ {H N : Type 0} (server : Server H N) where
  open server use {char_signed, net, strerror}

  abbrev on_session : {A : Type 0} → Exec (Session H N) A → Exec (Guarded H N) A
  on_session m g = let (r, s) = m g.session in (r, record g { session = s })

  -- `[&connOk]() { connOk = false; }`
  abbrev pub flag_setter : Defer (Guarded H N)
  flag_setter = record { deferred = λ g. record g { conn_ok = false } }

  -- The body of the `try`; `stop` is its `break`.
  unfoldable pub try_body : Exec (Guarded H N) Next
  unfolding guarding on_provider
  try_body =
      then_do (λ g. guarding flag_setter (on_session (on_provider server (recv_package net)) g))
        (λ header g.
          if header.is_ok
          then then_do (on_session (dispatch_package server header))
              (λ _.
                then_do
                  (λ g.
                    guarding flag_setter
                      (on_session (on_provider server (send_package net char_signed)) g))
                  (λ _ g. (ok again, g)))
              g
          else (ok stop, g))

  -- What leaves the `catch`.
  unfoldable pub after_catch : Outcome (Unit {0}) × Guarded H N → Next × Guarded H N
  after_catch (ok u, g) = (again, g)
  after_catch (throw e, g) = (terminated, g)
  after_catch (fault, g) = (faulted, g)
  after_catch (hang, g) = (hung, g)

  -- `catch (std::exception& e)`.
  unfoldable pub catch_body : Exception → Guarded H N → Next × Guarded H N
  unfolding after_catch on_provider
  catch_body e g =
      if g.conn_ok
      then after_catch (
          on_session
            (on_provider server
              (then_do (pack_error net (what strerror e)) λ _. send_package net char_signed))
            g)
      else (stop, g)

  unfoldable pub after_try : Outcome Next × Guarded H N → Next × Guarded H N
  unfolding catch_body
  after_try (ok next, g) = (next, g)
  after_try (throw e, g) = catch_body e g
  after_try (fault, g) = (faulted, g)
  after_try (hang, g) = (hung, g)

  -- A round of the loop.
  unfoldable pub guarded_round : Guarded H N → Next × Guarded H N
  unfolding after_try try_body
  guarded_round g = after_try (try_body g)

  -- The session of a result.
  abbrev seen : Next × Guarded H N → Next × Session H N
  seen x = (x.0, x.1.session)

  -- A round that goes on has `connOk` as it was.
  abbrev pub Sound : Next × Guarded H N → Type 0
  Sound x = x.0 ≡ again → x.1.conn_ok ≡ true

  abbrev sound : Session H N → Guarded H N
  sound s = record { session = s; conn_ok = true }

  report-Sound :
      (x : Outcome (Unit {0}) × Session H N)
      → (seen (after_catch (x.0, sound x.1)) ≡ after_report server x)
        × Sound (after_catch (x.0, sound x.1))
  unfolding after_catch after_report
  report-Sound (ok u, s) = (refl, λ e. refl)
  report-Sound (throw e, s) = (refl, λ q. cc)
  report-Sound (fault, s) = (refl, λ q. cc)
  report-Sound (hang, s) = (refl, λ q. cc)

  -- After `SendPackage`.
  sending : Outcome (Unit {0}) × Session H N → Next × Guarded H N
  unfolding after_try guarding
  sending x =
      let (r, g) = guarding flag_setter (x.0, sound x.1) in
      after_try (resume r (λ _ g. (ok again, g)) g)

  sending-Sound :
      (x : Outcome (Unit {0}) × Session H N)
      → (seen (sending x) ≡ after_send server x) × Sound (sending x)
  unfolding sending after_try guarding after_send catch_body run_deferred cancel
  sending-Sound (ok u, s) = (refl, λ e. refl)
  sending-Sound (throw e, s) = (refl, λ q. cc)
  sending-Sound (fault, s) = (refl, λ q. cc)
  sending-Sound (hang, s) = (refl, λ q. cc)

  -- After `DispatchPackage`.
  dispatching : Outcome (Unit {0}) × Session H N → Next × Guarded H N
  unfolding after_try guarding on_provider
  dispatching x = after_try (
      resume x.0
        (λ _.
          then_do
            (λ g.
              guarding flag_setter
                (on_session (on_provider server (send_package net char_signed)) g))
            (λ _ g. (ok again, g)))
        (sound x.1))

  dispatching-Sound :
      (x : Outcome (Unit {0}) × Session H N)
      → (seen (dispatching x) ≡ after_dispatch server x) × Sound (dispatching x)
  unfolding dispatching after_try after_dispatch catch_body report sending
  dispatching-Sound (ok u, s) = sending-Sound (on_provider server (send_package net char_signed) s)
  dispatching-Sound (throw e, s) = report-Sound (
      on_provider server
        (then_do (pack_error net (what strerror e)) λ _. send_package net char_signed) s)
  dispatching-Sound (fault, s) = (refl, λ q. cc)
  dispatching-Sound (hang, s) = (refl, λ q. cc)

  -- After `RecvPackage`.
  receiving : Outcome MsgHeader × Session H N → Next × Guarded H N
  unfolding after_try guarding on_provider
  receiving x =
      let (r, g) = guarding flag_setter (x.0, sound x.1) in
      after_try (
        resume r
          (λ header g.
            if header.is_ok
            then then_do (on_session (dispatch_package server header))
                (λ _.
                  then_do
                    (λ g.
                      guarding flag_setter
                        (on_session (on_provider server (send_package net char_signed)) g))
                    (λ _ g. (ok again, g)))
                g
            else (ok stop, g))
          g)

  receiving-Sound :
      (x : Outcome MsgHeader × Session H N)
      → (seen (receiving x) ≡ after_receive server x) × Sound (receiving x)
  unfolding receiving after_try guarding after_receive catch_body run_deferred cancel dispatching
  receiving-Sound (ok header, s) = elim (Bool-cases header.is_ok) [
    | inl good ↦ rw good (dispatching-Sound (dispatch_package server header s))
    | inr bad ↦ rw bad (refl, λ q. cc)
  ]
  receiving-Sound (throw e, s) = (refl, λ q. cc)
  receiving-Sound (fault, s) = (refl, λ q. cc)
  receiving-Sound (hang, s) = (refl, λ q. cc)

  -- With `connOk` set, a round of the loop as it is written, with its two guards and its `catch`, goes
  -- on and leaves the session as the round of the model by cases does; and where it goes on, `connOk` is
  -- set again. So the `connOk` that a round begins with is always set.
  pub guarded_round-serve_round :
      (s : Session H N)
      → let g = guarded_round (record { session = s; conn_ok = true }) in
        ((g.0, g.1.session) ≡ serve_round server s) × (g.0 ≡ again → g.1.conn_ok ≡ true)
  unfolding guarded_round try_body serve_round receiving
  guarded_round-serve_round s = receiving-Sound (on_provider server (recv_package net) s)
