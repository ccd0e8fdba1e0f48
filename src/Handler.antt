-- ===== src/Handler.antt =====
-- Src/HandlerImpl.cpp and Inc/roki-mb-daemon/HandlerImpl.hpp: the handler of the RPC requests, which
-- arbitrates the chip's serial port, and `ClearPort` of Src/Helpers.cpp. Each request runs alone
-- here; Handler/Threads.antt interleaves the requests of many connections.
pub mod Arbitration
pub mod Holder
pub mod Grants
pub mod Refinement
pub mod Threads
use roki_mb_daemon.Base.{
  ℕ, zero, suc, ◌-◌, ◌%◌, ◌^◌, Bool, true, false, List, [], ◌∷◌, ◌++◌, Option, none, some,
  if◌then◌else◌, runtime_error, errno_exception, Outcome, ok, throw, fault, hang, ◌>>=◌, Exec,
  then_do, str, to_string_int, length,
}
use roki_mb_daemon.HwUtils.{Os}
use roki_mb_daemon.Firmware.{
  FwState, running, Firmware, same_state, get_state_description, reset_chip, flash_bootloader,
  start_firmware,
}
use roki_mb_daemon.RpcDefs.{ByteString, UserData, ChipStatus, to_cxx_str}

-- What a `read` call returns.
pub data ReadResult : Type 0 where
  count : ℕ → ReadResult
  failed : ℕ → ReadResult

-- The device file of a port: `open` (`some e` is a failure) and `read`.
pub record Device (W : Type 0) : Type 0 where
  pub open_file : List ℕ → W → Option ℕ × W
  pub read_file : W → ReadResult × W

module _ {W : Type 0} (device : Device W) where
  -- The loop of `Helpers::ClearPort`; it hangs where `fuel` reads do not reach the end of the file.
  unfoldable pub clear_loop : ℕ → Exec W (Unit {0})
  clear_loop zero w = (hang, w)
  clear_loop (suc fuel) w =
      let (result, w') = device.read_file w in
      let rest = clear_loop fuel w' in
      elim result [
        | failed e ↦ (throw (errno_exception (str "read()") e), w')
        | count n ↦ elim n [ zero ↦ (ok tt, w') | suc k ↦ rest ]
      ]

  unfoldable pub clear_port : ℕ → List ℕ → Exec W (Unit {0})
  unfolding clear_loop
  clear_port fuel path w =
      let (refused, w') = device.open_file path w in
      elim refused [
        | some e ↦ (throw (errno_exception (str "open()") e), w')
        | none ↦ clear_loop fuel w'
      ]

pub record Handler (W : Type 0) : Type 0 where
  pub firmware : Firmware W
  pub open firmware use *
  pub acquired : Bool
  pub user_name : List ℕ
  pub user_pid : ℕ

-- The requests, as Inc/roki-mb-daemon/Procedures.list names them.
pub data Request : Type 0 where
  asks_status asks_start asks_reset asks_disconnect : Request
  asks_flash : ByteString → Request
  asks_connect : UserData → Request

-- The answers of the handler, one for each type of message.
pub data Reply : Type 0 where
  no_content : Reply
  port_path : ByteString → Reply
  chip_status : ChipStatus → Reply

-- A `std::string` as a message: its size is cut to a `char`, its bytes stay.
abbrev pub as_message : List ℕ → ByteString
as_message t = record { bytes = some t; size = length t % 256 }

-- The environment of the handler.
pub record Setup (W : Type 0) : Type 0 where
  pub os : Os W
  pub device : Device W
  pub scripts_dir : List ℕ
  pub char_signed : Bool
  -- How many reads `ClearPort` may make.
  pub max_reads : ℕ

-- What follows a check that has no effect.
pub after_check {ℓ} : {S A B : Type ℓ} → Outcome A → (A → Exec S B) → Exec S B
after_check (ok a) k s = k a s
after_check (throw e) k s = (throw e, s)
after_check fault k s = (fault, s)
after_check hang k s = (hang, s)

unfoldable pub acquired_message : {W : Type 0} → List ℕ → Handler W → List ℕ
acquired_message proc_name h =
    str "Can't do "
    ++ (proc_name
        ++ (str ": Port is acquired by "
            ++ (h.user_name ++ (str " at PID " ++ to_string_int h.user_pid))))

-- The message that `GetStatus` fills.
abbrev pub get_status_reply : {W : Type 0} → Handler W → Reply
get_status_reply h = chip_status (record {
  description = as_message (get_state_description h.firmware);
  acquired = h.acquired;
  user = record { name = as_message h.user_name; pid = h.user_pid };
})

module _ {W : Type 0} (setup : Setup W) where
  open setup use {os, device, scripts_dir, char_signed, max_reads}

  unfoldable pub get_status : Exec (Handler W) Reply
  get_status h = (ok (get_status_reply h), h)

  unfoldable pub ensure_not_acquired : List ℕ → Handler W → Outcome (Unit {0})
  ensure_not_acquired proc_name h =
      if h.acquired then throw (runtime_error (acquired_message proc_name h)) else ok tt

  -- A call of the firmware from the handler.
  on_firmware : Exec (Firmware W) (Unit {0}) → Exec (Handler W) Reply
  on_firmware call h =
      let (result, f) = call h.firmware in
      ((result >>= λ _. ok no_content), record h { firmware = f })

  unfoldable pub flash : ByteString → Exec (Handler W) Reply
  unfolding ensure_not_acquired on_firmware after_check
  flash path h =
      after_check (ensure_not_acquired (str "Flash") h)
        (λ _.
          after_check (to_cxx_str char_signed path)
            (λ p. on_firmware (flash_bootloader os scripts_dir p)))
        h

  unfoldable pub start : Exec (Handler W) Reply
  unfolding on_firmware
  start = on_firmware (start_firmware os scripts_dir)

  unfoldable pub reset : Exec (Handler W) Reply
  unfolding ensure_not_acquired on_firmware after_check
  reset h =
      after_check (ensure_not_acquired (str "Reset") h)
        (λ _. on_firmware (reset_chip os scripts_dir)) h

  -- The end of `Connect`: the user is recorded, and the reply names the port.
  record_holder : UserData → List ℕ → Exec (Handler W) Reply
  record_holder user name h = (
    ok (port_path (as_message h.mb_port)),
    record h { user_name = name; user_pid = user.pid; acquired = true },
  )

  -- `Connect` from the call of `ClearPort` on.
  unfoldable pub hand_over : UserData → Exec (Handler W) Reply
  unfolding after_check record_holder
  hand_over user h =
      let (cleared, w) = clear_port device max_reads h.mb_port h.world in
      after_check cleared
        (λ _. after_check (to_cxx_str char_signed user.name) (λ name. record_holder user name))
        (record h { firmware = record h.firmware { world = w } })

  connect_free : UserData → Unit {0} → Exec (Handler W) Reply
  connect_free user u h =
      if same_state h.state running
      then hand_over user h
      else (throw (runtime_error (str "Can't connect: firmware is not started")), h)

  unfoldable pub connect : UserData → Exec (Handler W) Reply
  unfolding ensure_not_acquired after_check connect_free
  connect user h = after_check (ensure_not_acquired (str "Connect") h) (connect_free user) h

  unfoldable pub disconnect : Exec (Handler W) Reply
  disconnect h =
      if h.acquired
      then (ok no_content, record h { acquired = false })
      else (throw (runtime_error (str "Port is not acquired")), h)

  unfoldable pub handle : Request → Exec (Handler W) Reply
  handle asks_status = get_status
  handle (asks_flash path) = flash path
  handle asks_start = start
  handle asks_reset = reset
  handle (asks_connect user) = connect user
  handle asks_disconnect = disconnect
