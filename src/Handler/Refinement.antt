-- ===== src/Handler/Refinement.antt =====
-- Src/HandlerImpl.cpp implements a lock: the port is vacant or held in a name and a PID, a grant takes
-- it and a release gives it up. The requests are handled one at a time.
use roki_mb_daemon.Base.{
  ℕ, ◌≡◌, inl, inr, refl, ap, Bool, true, false, List, [], ◌∷◌, Outcome, ok, throw, fault, hang,
  if◌then◌else◌, arith, str, Bool-cases,
}
use roki_mb_daemon.RpcDefs.{UserData, to_cxx_str}
use roki_mb_daemon.Handler.{
  Handler, Setup, Request, asks_status, asks_start, asks_reset, asks_disconnect, asks_flash,
  asks_connect, Reply, ensure_not_acquired, handle, get_status, flash, start, reset, disconnect,
  connect,
}
use roki_mb_daemon.Handler.Holder.{
  is_ok, after_check-result, handle-hold, held_refuses, connect-Granted,
}
use roki_mb_daemon.Handler.Grants.{serve}

-- The lock.
pub data Holding : Type 0 where
  vacant : Holding
  held_by : List ℕ → ℕ → Holding

pub data Event : Type 0 where
  granted : List ℕ → ℕ → Event
  released unrelated : Event

pub data LockStep : Holding → Event → Holding → Type 0 where
  grant : (name : List ℕ) (pid : ℕ) → LockStep vacant (granted name pid) (held_by name pid)
  release : (name : List ℕ) (pid : ℕ) → LockStep (held_by name pid) released vacant
  skip : (p : Holding) → LockStep p unrelated p

pub data LockRun : Holding → List Event → Holding → Type 0 where
  done : (p : Holding) → LockRun p [] p
  then_ :
      {p q r : Holding} {e : Event} {es : List Event}
      → LockStep p e q
      → LockRun q es r
      → LockRun p (e ∷ es) r

-- The handler as a lock.
abbrev pub view : {W : Type 0} → Handler W → Holding
view h = if h.acquired then held_by h.user_name h.user_pid else vacant

abbrev grant_event : Outcome (List ℕ) → ℕ → Event
grant_event (ok name) pid = granted name pid
grant_event _ pid = unrelated

-- What a request meant for the lock, by whether it was granted.
abbrev pub event : Bool → Request → Bool → Event
event signed (asks_connect user) true = grant_event (to_cxx_str signed user.name) user.pid
event signed asks_disconnect true = released
event signed r good = unrelated

grant-LockStep :
    {p q : Holding} {e : Event} (name : List ℕ) (pid : ℕ)
    → p ≡ vacant
    → e ≡ granted name pid
    → q ≡ held_by name pid
    → LockStep p e q
grant-LockStep name pid a b c = rw (a, b, c) (grant name pid)

release-LockStep :
    {p q : Holding} (name : List ℕ) (pid : ℕ)
    → p ≡ held_by name pid
    → q ≡ vacant
    → LockStep p released q
release-LockStep name pid a b = rw (a, b) (release name pid)

skip-LockStep : {p q : Holding} {e : Event} → e ≡ unrelated → q ≡ p → LockStep p e q
skip-LockStep {p} a b = rw (a, b) (skip p)

module _ {W : Type 0} (setup : Setup W) where
  open setup use {char_signed}

  connect-unrelated :
      (user : UserData) (h : Handler W)
      → is_ok (handle setup (asks_connect user) h).0 ≡ false
      → view (handle setup (asks_connect user) h).1 ≡ view h
  connect-unrelated user h failed = elim (Bool-cases h.acquired) [
    | inl held ↦ rw (held_refuses setup (asks_connect user) (str "Connect") h refl held) refl
    | inr free ↦
        (let kept : (handle setup (asks_connect user) h).1.acquired ≡ false =
            ground (arith, handle-hold setup (asks_connect user) h) in
          rw (kept, free) refl)
  ]

  connect-granted :
      (user : UserData) (h : Handler W) (reply : Reply)
      → (handle setup (asks_connect user) h).0 ≡ ok reply
      → LockStep
          (view h)
          (event char_signed (asks_connect user) true)
          (view (handle setup (asks_connect user) h).1)
  unfolding handle
  connect-granted user h reply e =
      let g = connect-Granted setup user h reply e in
      let t = (connect setup user h).1 in
      let named : event char_signed (asks_connect user) true ≡ granted t.user_name t.user_pid =
        rw (g.name_read, g.pid_read) refl in
      grant-LockStep t.user_name t.user_pid (ground (arith, g.was_free)) named
        (ground (arith, g.now_held))

  connect-LockStep :
      (user : UserData) (h : Handler W) (result : Outcome Reply)
      → (handle setup (asks_connect user) h).0 ≡ result
      → LockStep
          (view h)
          (event char_signed (asks_connect user) (is_ok result))
          (view (handle setup (asks_connect user) h).1)
  connect-LockStep user h (ok reply) e = connect-granted user h reply e
  connect-LockStep user h (throw x) e = skip-LockStep refl (connect-unrelated user h (ap is_ok e))
  connect-LockStep user h fault e = skip-LockStep refl (connect-unrelated user h (ap is_ok e))
  connect-LockStep user h hang e = skip-LockStep refl (connect-unrelated user h (ap is_ok e))

  disconnect-LockStep :
      (h : Handler W)
      → LockStep
          (view h)
          (event char_signed asks_disconnect (is_ok (disconnect setup h).0))
          (view (disconnect setup h).1)
  unfolding disconnect
  disconnect-LockStep h = elim (Bool-cases h.acquired) [
    | inl held ↦
        (let freed : (disconnect setup h).1.acquired ≡ false = ground arith in
          let good : is_ok (disconnect setup h).0 ≡ true = ground arith in
          simp good (release-LockStep h.user_name h.user_pid (ground arith) (ground arith)))
    | inr free ↦
        (let failed : is_ok (disconnect setup h).0 ≡ false = ground arith in
          simp failed (skip-LockStep refl (ground arith)))
  ]

  -- Each request, granted or not, is a step of the lock.
  handle-LockStep :
      (r : Request) (h : Handler W)
      → LockStep
          (view h)
          (event char_signed r (is_ok (handle setup r h).0))
          (view (handle setup r h).1)
  unfolding handle flash reset start get_status
  handle-LockStep asks_status h = skip (view h)
  handle-LockStep (asks_flash path) h = skip-LockStep refl (
      after_check-result (λ q. view q.1 ≡ view h) (ensure_not_acquired setup (str "Flash") h) _ h
        (λ b n. refl)
        λ u e.
          after_check-result (λ q. view q.1 ≡ view h) (to_cxx_str char_signed path) _ h
            (λ b n. refl) λ p e. refl)
  handle-LockStep asks_start h = skip-LockStep refl refl
  handle-LockStep asks_reset h = skip-LockStep refl (
      after_check-result (λ q. view q.1 ≡ view h) (ensure_not_acquired setup (str "Reset") h) _ h
        (λ b n. refl) λ u e. refl)
  handle-LockStep (asks_connect user) h =
      connect-LockStep user h (handle setup (asks_connect user) h).0 refl
  handle-LockStep asks_disconnect h = disconnect-LockStep h

  -- What a sequence of requests meant for the lock.
  pub events : List Request → Handler W → List Event
  events [] h = []
  events (r ∷ rs) h =
      event char_signed r (is_ok (handle setup r h).0) ∷ events rs (handle setup r h).1

  -- Over any sequence of requests, from any state, the handler does what a lock does: a grant finds it
  -- vacant and leaves it held in the name and the PID of the request, a release finds it held and
  -- leaves it vacant, and nothing else, no refused request either, changes it or its holder.
  pub serve_refines :
      (rs : List Request) (h : Handler W) → LockRun (view h) (events rs h) (view (serve setup rs h))
  unfolding events serve
  serve_refines [] h = done (view h)
  serve_refines (r ∷ rs) h = then_ (handle-LockStep r h) (serve_refines rs (handle setup r h).1)
