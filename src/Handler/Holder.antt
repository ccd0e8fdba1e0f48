-- ===== src/Handler/Holder.antt =====
-- Src/HandlerImpl.cpp: what a request needs and what it changes, where the requests are handled one at
-- a time.
use roki_mb_daemon.Base.{
  ℕ, ◌≡◌, inl, inr, refl, Bool, true, false, List, runtime_error, Outcome, ok, throw, fault, hang,
  Exec, arith, Bool-cases, if◌then◌else◌, str, Option, none, some,
}
use roki_mb_daemon.Firmware.{running, Firmware, same_state}
use roki_mb_daemon.Handler.Arbitration.{ensure-free}
use roki_mb_daemon.RpcDefs.{UserData, to_cxx_str}
use roki_mb_daemon.Handler.{
  Handler, Setup, Request, asks_status, asks_start, asks_reset, asks_disconnect, asks_flash,
  asks_connect, Reply, port_path, clear_port, as_message, acquired_message, ensure_not_acquired,
  after_check, on_firmware, record_holder, hand_over, connect_free, get_status, flash, start, reset,
  connect, disconnect, handle,
}

abbrev pub is_ok {ℓ} : {A : Type ℓ} → Outcome A → Bool
is_ok (ok a) = true
is_ok _ = false

-- `after_check` stops with a failure, or goes on.
pub after_check-result :
    {S A B : Type 0} (Q : Outcome B × S → Type 0) (r : Outcome A) (k : A → Exec S B) (s : S)
    → ((b : Outcome B) → is_ok b ≡ false → Q (b, s))
    → ((a : A) → r ≡ ok a → Q (k a s))
    → Q (after_check r k s)
unfolding after_check
after_check-result Q (ok a) k s stops goes = goes a refl
after_check-result Q (throw e) k s stops goes = stops (throw e) refl
after_check-result Q fault k s stops goes = stops fault refl
after_check-result Q hang k s stops goes = stops hang refl

-- The name under which a request asks whether the port is held, if it does.
abbrev pub guarded_name : Request → Option (List ℕ)
guarded_name (asks_flash path) = some (str "Flash")
guarded_name asks_reset = some (str "Reset")
guarded_name (asks_connect user) = some (str "Connect")
guarded_name _ = none

module _ {W : Type 0} (setup : Setup W) where
  open setup use {os, device, scripts_dir, char_signed, max_reads}

  -- While the port is held, a flash, a reset and a connect are refused with a message that names the
  -- holder, and change nothing.
  pub held_refuses :
      (r : Request) (name : List ℕ) (h : Handler W)
      → guarded_name r ≡ some name
      → h.acquired ≡ true
      → handle setup r h ≡ (throw (runtime_error (acquired_message name h)), h)
  unfolding handle flash reset connect ensure_not_acquired after_check
  held_refuses (asks_flash path) name h e held = ground arith
  held_refuses asks_reset name h e held = ground arith
  held_refuses (asks_connect user) name h e held = ground arith
  held_refuses asks_status name h e held = cc
  held_refuses asks_start name h e held = cc
  held_refuses asks_disconnect name h e held = cc

  -- What a granted `Connect` found and left.
  pub record Granted (user : UserData) (h : Handler W) (reply : Reply) (g : Handler W)
      : Type 0 where
    pub was_free : h.acquired ≡ false
    pub was_running : h.state ≡ running
    pub now_held : g.acquired ≡ true
    pub name_read : to_cxx_str char_signed user.name ≡ ok g.user_name
    pub pid_read : g.user_pid ≡ user.pid
    pub replied : reply ≡ port_path (as_message h.mb_port)
    pub still_running : g.state ≡ running
    pub same_port : g.mb_port ≡ h.mb_port

  hand_over-Granted :
      (user : UserData) (h : Handler W) (reply : Reply)
      → h.acquired ≡ false
      → h.state ≡ running
      → (hand_over setup user h).0 ≡ ok reply
      → Granted user h reply (hand_over setup user h).1
  unfolding hand_over record_holder
  hand_over-Granted user h reply free on =
      let cleared = clear_port device max_reads h.mb_port h.world in
      let g : Handler W = record h { firmware = record h.firmware { world = cleared.1 } } in
      let name = to_cxx_str char_signed user.name in
      after_check-result (λ q. q.0 ≡ ok reply → Granted user h reply q.1) cleared.0
        (λ _. after_check name (record_holder setup user)) g (λ b n e. ground arith)
        λ u _.
          after_check-result (λ q. q.0 ≡ ok reply → Granted user h reply q.1) name
            (record_holder setup user) g (λ b n e. ground arith)
            λ t e p. record {
              was_free = free;
              was_running = on;
              now_held = refl;
              name_read = e;
              pid_read = refl;
              replied = cc;
              still_running = on;
              same_port = refl;
            }

  connect_free-Granted :
      (user : UserData) (h : Handler W) (reply : Reply) (u : Unit {0})
      → h.acquired ≡ false
      → (connect_free setup user u h).0 ≡ ok reply
      → Granted user h reply (connect_free setup user u h).1
  unfolding connect_free
  connect_free-Granted user h reply u free = elim (Bool-cases (same_state h.state running)) [
    | inl on ↦ simp (on, connect_free) λ p. hand_over-Granted user h reply free (ground arith) p
    | inr off ↦ simp (off, connect_free) λ p. cc
  ]

  -- A `Connect` succeeds only where the port was free and the chip ran; then the port is held in the
  -- name and the PID of the request, and the reply is the chip's port.
  pub connect-Granted :
      (user : UserData) (h : Handler W) (reply : Reply)
      → (connect setup user h).0 ≡ ok reply
      → Granted user h reply (connect setup user h).1
  unfolding connect
  connect-Granted user h reply =
      after_check-result (λ q. q.0 ≡ ok reply → Granted user h reply q.1)
        (ensure_not_acquired setup (str "Connect") h) (connect_free setup user) h
        (λ b n e. ground arith)
        λ u e. connect_free-Granted user h reply u (ensure-free setup (str "Connect") h u e)

  -- The handler after a granted `Connect`.
  abbrev pub connected : List ℕ → ℕ → Handler W → Handler W
  connected name pid h = record h {
    firmware = record h.firmware { world = (clear_port device max_reads h.mb_port h.world).1 };
    user_name = name;
    user_pid = pid;
    acquired = true;
  }

  -- A `Connect` to a free port of a running chip succeeds where the port can be cleared and the name
  -- be read.
  pub connect-connected :
      (user : UserData) (name : List ℕ) (h : Handler W)
      → h.acquired ≡ false
      → h.state ≡ running
      → (clear_port device max_reads h.mb_port h.world).0 ≡ ok tt
      → to_cxx_str char_signed user.name ≡ ok name
      → connect setup user h ≡ (ok (port_path (as_message h.mb_port)), connected name user.pid h)
  unfolding connect connect_free hand_over record_holder ensure_not_acquired after_check
  connect-connected user name h free on cleared named =
      let test : same_state h.state running ≡ true = ground arith in
      simp (free, test, cleared, named)

  -- What a request does to the hold on the port: a granted `Connect` takes it, a granted
  -- `Disconnect` gives it up, and nothing else changes it.
  abbrev pub hold_after : Request → Bool → Bool → Bool
  hold_after (asks_connect user) granted held = if granted then true else held
  hold_after asks_disconnect granted held = if granted then false else held
  hold_after _ granted held = held

  on_firmware-acquired :
      (call : Exec (Firmware W) (Unit {0})) (h : Handler W)
      → (on_firmware setup call h).1.acquired ≡ h.acquired
  unfolding on_firmware
  on_firmware-acquired call h = refl

  hand_over-hold :
      (user : UserData) (h : Handler W)
      → (hand_over setup user h).1.acquired
        ≡ (if is_ok (hand_over setup user h).0 then true else h.acquired)
  unfolding hand_over record_holder
  hand_over-hold user h =
      let cleared = clear_port device max_reads h.mb_port h.world in
      let g : Handler W = record h { firmware = record h.firmware { world = cleared.1 } } in
      let name = to_cxx_str char_signed user.name in
      after_check-result (λ q. q.1.acquired ≡ (if is_ok q.0 then true else h.acquired)) cleared.0
        (λ _. after_check name (record_holder setup user)) g (λ b n. ground arith)
        λ u _.
          after_check-result (λ q. q.1.acquired ≡ (if is_ok q.0 then true else h.acquired)) name
            (record_holder setup user) g (λ b n. ground arith) λ t e. refl

  connect-hold :
      (user : UserData) (h : Handler W)
      → (connect setup user h).1.acquired
        ≡ (if is_ok (connect setup user h).0 then true else h.acquired)
  unfolding connect
  connect-hold user h =
      after_check-result (λ q. q.1.acquired ≡ (if is_ok q.0 then true else h.acquired))
        (ensure_not_acquired setup (str "Connect") h) (connect_free setup user) h
        (λ b n. ground arith) λ u e. ground (arith, hand_over-hold user h)

  pub handle-hold :
      (r : Request) (h : Handler W)
      → (handle setup r h).1.acquired ≡ hold_after r (is_ok (handle setup r h).0) h.acquired
  unfolding handle flash reset start get_status disconnect
  handle-hold asks_status h = refl
  handle-hold (asks_flash path) h =
      after_check-result (λ q. q.1.acquired ≡ h.acquired)
        (ensure_not_acquired setup (str "Flash") h) _ h (λ b n. refl)
        λ u e.
          after_check-result (λ q. q.1.acquired ≡ h.acquired) (to_cxx_str char_signed path) _ h
            (λ b n. refl) λ p e. refl
  handle-hold asks_start h = refl
  handle-hold asks_reset h =
      after_check-result (λ q. q.1.acquired ≡ h.acquired)
        (ensure_not_acquired setup (str "Reset") h) _ h (λ b n. refl) λ u e. refl
  handle-hold (asks_connect user) h = connect-hold user h
  handle-hold asks_disconnect h = ground arith
