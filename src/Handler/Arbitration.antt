-- ===== src/Handler/Arbitration.antt =====
-- Src/HandlerImpl.cpp: who holds the port, and what the others may do meanwhile, where the requests
-- are handled one at a time.
use roki_mb_daemon.Base.{
  ℕ, ◌≡◌, inl, inr, refl, true, false, List, runtime_error, Outcome, ok, throw, fault, hang, Exec,
  arith, Bool-cases, str,
}
use roki_mb_daemon.Firmware.{running, same_state}
use roki_mb_daemon.Firmware.Transitions.{
  Call, allowed, perform, perform_forbidden, perform-IsSettled, IsSettled, message,
}
use roki_mb_daemon.RpcDefs.{ByteString, UserData, to_cxx_str}
use roki_mb_daemon.Handler.{
  Handler, Setup, Request, asks_status, asks_start, asks_reset, asks_disconnect, asks_flash,
  asks_connect, clear_port, ensure_not_acquired, after_check, on_firmware, record_holder, hand_over,
  connect_free, get_status, flash, start, reset, connect, disconnect, handle,
}

after_check-keeps :
    {S A B : Type 0} (P : S → Type 0) (r : Outcome A) (k : A → Exec S B) (s : S)
    → P s
    → ((a : A) → r ≡ ok a → P (k a s).1)
    → P (after_check r k s).1
unfolding after_check
after_check-keeps P (ok a) k s h then_ = then_ a refl
after_check-keeps P (throw e) k s h then_ = h
after_check-keeps P fault k s h then_ = h
after_check-keeps P hang k s h then_ = h

module _ {W : Type 0} (setup : Setup W) where
  open setup use {os, device, scripts_dir, char_signed, max_reads}

  -- No firmware operation is in flight, and a held port is that of a running chip.
  pub record IsArbitrated (h : Handler W) : Type 0 where
    pub settled : IsSettled os scripts_dir h.firmware
    pub held_running : h.acquired ≡ true → h.state ≡ running

  -- A firmware call made while nobody holds the port.
  on_firmware-IsArbitrated :
      (c : Call) (h : Handler W)
      → IsArbitrated h
      → h.acquired ≡ false
      → IsArbitrated (on_firmware setup (perform os scripts_dir c) h).1
  unfolding on_firmware
  on_firmware-IsArbitrated c h v free = record {
    settled = perform-IsSettled os scripts_dir c h.firmware v.settled;
    held_running = λ held. cc;
  }

  pub ensure-free :
      (name : List ℕ) (h : Handler W) (u : Unit {0})
      → ensure_not_acquired setup name h ≡ ok u
      → h.acquired ≡ false
  unfolding ensure_not_acquired
  ensure-free name h u e = ground arith

  flash-IsArbitrated :
      (path : ByteString) (h : Handler W) → IsArbitrated h → IsArbitrated (flash setup path h).1
  unfolding flash perform
  flash-IsArbitrated path h v = after_check-keeps IsArbitrated _ _ h v λ u e.
      after_check-keeps IsArbitrated (to_cxx_str char_signed path) _ h v
        λ p _. on_firmware-IsArbitrated (Call.flash p) h v (ensure-free (str "Flash") h u e)

  reset-IsArbitrated : (h : Handler W) → IsArbitrated h → IsArbitrated (reset setup h).1
  unfolding reset perform
  reset-IsArbitrated h v =
      after_check-keeps IsArbitrated _ _ h v
        λ u e. on_firmware-IsArbitrated Call.reset h v (ensure-free (str "Reset") h u e)

  -- While the port is held, and the chip of a held port runs, the state machine refuses a `Start`, which
  -- changes nothing.
  pub start_forbidden :
      (h : Handler W)
      → IsArbitrated h
      → h.acquired ≡ true
      → start setup h ≡ (throw (runtime_error (message os scripts_dir Call.start h.state)), h)
  unfolding start on_firmware perform allowed
  start_forbidden h v held =
      let e = perform_forbidden os scripts_dir Call.start h.firmware (rw (v.held_running held)) in
      rw e

  start-IsArbitrated : (h : Handler W) → IsArbitrated h → IsArbitrated (start setup h).1
  start-IsArbitrated h v = elim (Bool-cases h.acquired) [
    | inl held ↦ rw (start_forbidden h v held) v
    | inr free ↦ unfold start perform in on_firmware-IsArbitrated Call.start h v free
  ]

  hand_over-IsArbitrated :
      (user : UserData) (h : Handler W)
      → IsArbitrated h
      → h.state ≡ running
      → IsArbitrated (hand_over setup user h).1
  unfolding hand_over record_holder
  hand_over-IsArbitrated user h v on =
      let cleared = clear_port device max_reads h.mb_port h.world in
      let g : Handler W = record h { firmware = record h.firmware { world = cleared.1 } } in
      let kept : IsArbitrated g = record { settled = v.settled; held_running = v.held_running } in
      let name = to_cxx_str char_signed user.name in
      after_check-keeps IsArbitrated cleared.0 (λ _. after_check name (record_holder setup user)) g
        kept
        λ u _.
          after_check-keeps IsArbitrated name (record_holder setup user) g kept
            λ name _. record { settled = v.settled; held_running = λ _. on }

  connect-IsArbitrated :
      (user : UserData) (h : Handler W) → IsArbitrated h → IsArbitrated (connect setup user h).1
  unfolding connect
  connect-IsArbitrated user h v =
      after_check-keeps IsArbitrated (ensure_not_acquired setup (str "Connect") h)
        (connect_free setup user) h v
        λ u e. elim (Bool-cases (same_state h.state running)) [
          | inl on ↦ simp (on, connect_free) (hand_over-IsArbitrated user h v (ground arith))
          | inr off ↦ simp (off, connect_free) v
        ]

  disconnect-IsArbitrated : (h : Handler W) → IsArbitrated h → IsArbitrated (disconnect setup h).1
  unfolding disconnect
  disconnect-IsArbitrated h v = elim (Bool-cases h.acquired) [
    | inl held ↦ simp (held, disconnect) (record { settled = v.settled; held_running = λ e. cc })
    | inr free ↦ simp (free, disconnect) v
  ]

  -- Where no firmware operation is in flight and a held port is that of a running chip, every request,
  -- however it ends, leaves it so.
  pub handle-IsArbitrated :
      (r : Request) (h : Handler W) → IsArbitrated h → IsArbitrated (handle setup r h).1
  unfolding handle
  handle-IsArbitrated asks_status h v = unfold get_status in v
  handle-IsArbitrated (asks_flash path) h v = flash-IsArbitrated path h v
  handle-IsArbitrated asks_start h v = start-IsArbitrated h v
  handle-IsArbitrated asks_reset h v = reset-IsArbitrated h v
  handle-IsArbitrated (asks_connect user) h v = connect-IsArbitrated user h v
  handle-IsArbitrated asks_disconnect h v = disconnect-IsArbitrated h v
